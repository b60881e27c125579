-- ===== src/Outbox/Retries.antt =====
-- Failing rows of the outbox (db/outbox.sql.go, outbox_worker.go): six attempts, with a growing delay.
use mathlib.Core.Path.{subst, ap, sym}
use payment_module.Common.{
  ℕ, suc, ◌+◌, ◌*◌, ◌≤◌, ◌≡◌, refl, String, List, [], ◌∷◌, arith, All, Option, none, some,
  if-either, ◌==◌, leb, if◌then◌else◌, length, ◌++◌,
}
use payment_module.Common.Int.{pos, ◌+ℤ◌}
use payment_module.Errors.{Error, error_text}
use payment_module.Domain.Types.{Time, Uuid}
use payment_module.Store.Rows.{OutboxRow, OutboxStatus}
use payment_module.Outbox.Queries.{
  failed_row, published_row, update_where, mark_outbox_event_failed, mark_outbox_event_published,
  get_pending_outbox_events, back_off,
}
use payment_module.Outbox.Worker.{
  Surroundings, Attempt, Batch, event_of, mark, marked, publish_rows, run_once, commit, claimed,
  begun,
}

-- A row that waits failed at most five times, one that was given up at least six times.
abbrev CountFits : OutboxStatus → ℕ → Type 0
CountFits OutboxStatus.pending n = n ≤ 5
CountFits OutboxStatus.failed n = 6 ≤ n
CountFits OutboxStatus.published n = Unit

abbrev pub InCount : OutboxRow → Type 0
InCount row = CountFits row.status row.retry_count

failed_row-InCount :
    (now : Time) (text : String) (x : OutboxRow) → InCount x → InCount (failed_row now text x)
unfolding failed_row
failed_row-InCount now text x h =
    if-either (λ s. CountFits s (x.retry_count + 1)) (leb 5 x.retry_count) OutboxStatus.failed
      OutboxStatus.pending (λ late. ground (arith, late)) (λ early. ground (arith, early))

update_where-InCount :
    (id : Uuid) (f : OutboxRow → OutboxRow) (table : List OutboxRow)
    → ((x : OutboxRow) → InCount x → InCount (f x))
    → All InCount table
    → All InCount (update_where id f table)
unfolding update_where
update_where-InCount id f [] h all = tt
update_where-InCount id f (x ∷ xs) h (k, all) = (
  if-either InCount (x.id == id) (f x) x (λ e. h x k) (λ e. k),
  update_where-InCount id f xs h all,
)

-- The rows of a table, if there is one, are in count.
abbrev TableInCount : Option (List OutboxRow) → Type 0
TableInCount none = Unit
TableInCount (some table) = All InCount table

module _ (around : Surroundings) where
  mark-InCount :
      (id : Uuid) (answer : Option Error) (table : List OutboxRow)
      → All InCount table
      → All InCount (mark around id answer table)
  unfolding mark mark_outbox_event_failed mark_outbox_event_published published_row
  mark-InCount id (some e) table all =
      update_where-InCount id (failed_row around.now (error_text e)) table
        (λ x h. failed_row-InCount around.now (error_text e) x h) all
  mark-InCount id none table all =
      update_where-InCount id (published_row around.now) table (λ x h. tt) all

  marked-InCount :
      (a : Attempt) (fault : Option Error) (rest : Batch)
      → TableInCount rest.table
      → TableInCount (marked around a fault rest).table
  unfolding marked
  marked-InCount a (some e) rest h = tt
  marked-InCount a none rest h = h

  publish_rows-InCount :
      (t : ℕ) (rows table : List OutboxRow)
      → All InCount table
      → TableInCount (publish_rows around t rows table).table
  unfolding publish_rows
  publish_rows-InCount t [] table all = all
  publish_rows-InCount t (row ∷ rows) table all =
      let answer : Option Error = around.publish t (event_of row) in
      let middle : List OutboxRow = mark around row.id answer table in
      marked-InCount (event_of row, answer) (around.mark_fault t)
        (publish_rows around (suc t) rows middle)
        (publish_rows-InCount (suc t) rows middle (mark-InCount row.id answer table all))

  commit-InCount :
      (table : List OutboxRow) (after : Option (List OutboxRow)) (fault : Option Error)
      → All InCount table
      → TableInCount after
      → All InCount (commit around table after fault)
  unfolding commit
  commit-InCount table none fault all h = all
  commit-InCount table (some end) (some e) all h = all
  commit-InCount table (some end) none all h = h

  claimed-InCount :
      (batch_size : ℕ) (table : List OutboxRow) (fault : Option Error)
      → All InCount table
      → All InCount (claimed around batch_size table fault).0
  unfolding claimed
  claimed-InCount batch_size table (some e) all = all
  claimed-InCount batch_size table none all =
      let rows : List OutboxRow =
        get_pending_outbox_events around.now around.locked batch_size table in
      commit-InCount table (publish_rows around 0 rows table).table around.commit_fault all
        (publish_rows-InCount 0 rows table all)

  begun-InCount :
      (batch_size : ℕ) (table : List OutboxRow) (fault : Option Error)
      → All InCount table
      → All InCount (begun around batch_size table fault).0
  unfolding begun
  begun-InCount batch_size table (some e) all = all
  begun-InCount batch_size table none all = claimed-InCount batch_size table around.poll_fault all

  pub run_once-InCount :
      (batch_size : ℕ) (table : List OutboxRow)
      → All InCount table
      → All InCount (run_once around batch_size table).0
  unfolding run_once
  run_once-InCount batch_size table all = begun-InCount batch_size table around.begin_fault all

-- The row after it failed at these times.
abbrev pub fail_at : List (Time × String) → OutboxRow → OutboxRow
fail_at [] row = row
fail_at ((now, text) ∷ more) row = fail_at more (failed_row now text row)

fail_at-count :
    (times : List (Time × String)) (row : OutboxRow)
    → (fail_at times row).retry_count ≡ row.retry_count + length times
unfolding failed_row
fail_at-count [] row = omega arith
fail_at-count ((now, text) ∷ more) row = omega (arith, fail_at-count more (failed_row now text row))

fail_at-last :
    (times : List (Time × String)) (now : Time) (text : String) (row : OutboxRow)
    → fail_at (times ++ (now, text) ∷ []) row ≡ failed_row now text (fail_at times row)
fail_at-last [] now text row = refl
fail_at-last ((at, s) ∷ more) now text row = fail_at-last more now text (failed_row at s row)

-- The row is given up from its sixth failure on; it is due again 30 seconds times the number of its
-- failures after the last one.
pub record BackedOff (failures : ℕ) (now : Time) (text : String) (row : OutboxRow) : Type 0 where
  pub status : row.status ≡ (if leb 6 failures then OutboxStatus.failed else OutboxStatus.pending)
  pub count : row.retry_count ≡ failures
  pub due : row.scheduled_at ≡ now +ℤ pos (failures * back_off)
  pub reason : row.last_error ≡ some text

failed_row-BackedOff :
    (n : ℕ) (now : Time) (text : String) (row : OutboxRow)
    → row.retry_count ≡ n
    → BackedOff (n + 1) now text (failed_row now text row)
unfolding failed_row
failed_row-BackedOff n now text row e = record {
  status = ground (arith, e);
  count = ap (λ k. k + 1) e;
  due = ap (λ k. now +ℤ pos ((k + 1) * back_off)) e;
  reason = refl;
}

-- A row that never failed before, after any sequence of failures: it is given up exactly when these are
-- six or more, counts them, keeps the last one's text, and is due 30 seconds times their number after the last.
pub fail_at-BackedOff :
    (times : List (Time × String)) (now : Time) (text : String) (row : OutboxRow)
    → row.retry_count ≡ 0
    → BackedOff (length times + 1) now text (fail_at (times ++ (now, text) ∷ []) row)
fail_at-BackedOff times now text row unfailed =
    subst (BackedOff (length times + 1) now text) (sym (fail_at-last times now text row)) (
      failed_row-BackedOff (length times) now text (fail_at times row)
        (omega (arith, fail_at-count times row, unfailed)))
