-- ===== src/Outbox/Delivery.antt =====
-- A pass of the outbox worker (outbox_worker.go): what it does to the rows, and what it publishes.
use payment_module.Outbox.Publisher.{EventMessage}
use payment_module.Common.{
  ℕ, suc, ◌≡◌, refl, sym, ◌∙◌, ◌⊎◌, inl, inr, none, some, List, [], ◌∷◌, ◌==◌, arith, Aligned,
  Aligned-refl, Aligned-trans, Aligned-weaken, if-either, Option, String, ◌++◌,
}
use mathlib.Core.Path.{subst}
use payment_module.Errors.{Error, error_text}
use payment_module.Domain.Types.{Uuid, Time}
use payment_module.Store.Rows.{OutboxRow, OutboxStatus}
use payment_module.Outbox.Queries.{
  update_where, failed_row, published_row, mark_outbox_event_failed, mark_outbox_event_published,
  get_pending_outbox_events,
}
use payment_module.Outbox.Worker.{
  Surroundings, Attempt, Batch, event_of, mark, publish_rows, run_once, commit, claimed, begun,
  marked,
}

-- Among the attempts is one for the id for which the publisher returned no error.
abbrev pub Delivered : List Attempt → Uuid → Type 0
Delivered [] id = ⊥
Delivered ((event, none) ∷ more) id = (event.id ≡ id) ⊎ Delivered more id
Delivered ((event, some e) ∷ more) id = Delivered more id

-- The row is still the same event, and it is published only if it was or was delivered.
pub record Kept (attempts : List Attempt) (old new : OutboxRow) : Type 0 where
  pub same_id : new.id ≡ old.id
  pub same_aggregate : new.aggregate_id ≡ old.aggregate_id
  pub same_type : new.event_type ≡ old.event_type
  pub same_payload : new.payload ≡ old.payload
  pub same_creation : new.created_at ≡ old.created_at
  pub honest :
      new.status ≡ OutboxStatus.published
      → (old.status ≡ OutboxStatus.published) ⊎ Delivered attempts old.id

module _ (done : List Attempt) where
  pub Kept-refl : (x : OutboxRow) → Kept done x x
  Kept-refl x = record {
    same_id = refl;
    same_aggregate = refl;
    same_type = refl;
    same_payload = refl;
    same_creation = refl;
    honest = λ e. inl e;
  }

  carry :
      (x y : OutboxRow)
      → y.id ≡ x.id
      → ((y.status ≡ OutboxStatus.published)
          → (x.status ≡ OutboxStatus.published) ⊎ Delivered done x.id)
      → (y.status ≡ OutboxStatus.published) ⊎ Delivered done y.id
      → (x.status ≡ OutboxStatus.published) ⊎ Delivered done x.id
  carry x y same honest (inl e) = honest e
  carry x y same honest (inr d) = inr (subst (Delivered done) same d)

  pub Kept-trans : (x y z : OutboxRow) → Kept done x y → Kept done y z → Kept done x z
  Kept-trans x y z r s = record {
    same_id = s.same_id ∙ r.same_id;
    same_aggregate = s.same_aggregate ∙ r.same_aggregate;
    same_type = s.same_type ∙ r.same_type;
    same_payload = s.same_payload ∙ r.same_payload;
    same_creation = s.same_creation ∙ r.same_creation;
    honest = λ e. carry x y r.same_id r.honest (s.honest e);
  }

  failed_row-Kept :
      (now : Time) (text : String) (x : OutboxRow) → Kept done x (failed_row now text x)
  unfolding failed_row
  failed_row-Kept now text x = record {
    same_id = refl;
    same_aggregate = refl;
    same_type = refl;
    same_payload = refl;
    same_creation = refl;
    honest = λ e. ground (arith, e);
  }

  published_row-Kept :
      (now : Time) (x : OutboxRow) → Delivered done x.id → Kept done x (published_row now x)
  unfolding published_row
  published_row-Kept now x d = record {
    same_id = refl;
    same_aggregate = refl;
    same_type = refl;
    same_payload = refl;
    same_creation = refl;
    honest = λ e. inr d;
  }

  update_where-Kept :
      (id : Uuid) (f : OutboxRow → OutboxRow) (table : List OutboxRow)
      → ((x : OutboxRow) → x.id ≡ id → Kept done x (f x))
      → Aligned (Kept done) table (update_where id f table)
  unfolding update_where
  update_where-Kept id f [] h = tt
  update_where-Kept id f (x ∷ xs) h = (
    if-either (Kept done x) (x.id == id) (f x) x (λ e. h x (ground (arith, e))) (λ e. Kept-refl x),
    update_where-Kept id f xs h,
  )

Delivered-later :
    (a : Attempt) (done : List Attempt) (id : Uuid) → Delivered done id → Delivered (a ∷ done) id
Delivered-later (event, none) done id d = inr d
Delivered-later (event, some e) done id d = d

pub Delivered-before :
    (done more : List Attempt) (id : Uuid) → Delivered done id → Delivered (done ++ more) id
Delivered-before [] more id d = elim d [ ]
Delivered-before ((event, none) ∷ done) more id (inl e) = inl e
Delivered-before ((event, none) ∷ done) more id (inr d) = inr (Delivered-before done more id d)
Delivered-before ((event, some e) ∷ done) more id d = Delivered-before done more id d

pub Delivered-after :
    (done more : List Attempt) (id : Uuid) → Delivered more id → Delivered (done ++ more) id
Delivered-after [] more id d = d
Delivered-after (a ∷ done) more id d =
    Delivered-later a (done ++ more) id (Delivered-after done more id d)

pub Kept-weaken :
    (done more : List Attempt)
    → ((id : Uuid) → Delivered done id → Delivered more id)
    → (x y : OutboxRow) → Kept done x y
    → Kept more x y
Kept-weaken done more later x y r = record {
  same_id = r.same_id;
  same_aggregate = r.same_aggregate;
  same_type = r.same_type;
  same_payload = r.same_payload;
  same_creation = r.same_creation;
  honest = λ e. elim (r.honest e) [ inl was ↦ inl was | inr d ↦ inr (later x.id d) ];
}

module _ (around : Surroundings) where
  mark-Kept :
      (event : EventMessage) (answer : Option Error) (done : List Attempt) (table : List OutboxRow)
      → Aligned (Kept ((event, answer) ∷ done)) table (mark around event.id answer table)
  unfolding mark mark_outbox_event_failed mark_outbox_event_published
  mark-Kept event (some e) done table =
      update_where-Kept ((event, some e) ∷ done) event.id (failed_row around.now (error_text e))
        table λ x same. failed_row-Kept ((event, some e) ∷ done) around.now (error_text e) x
  mark-Kept event none done table =
      update_where-Kept ((event, none) ∷ done) event.id (published_row around.now) table
        λ x same. published_row-Kept ((event, none) ∷ done) around.now x (inl (sym same))

  marked-Kept :
      (a : Attempt) (fault : Option Error) (rest : Batch) (table middle table' : List OutboxRow)
      → ((done : List Attempt) → Aligned (Kept (a ∷ done)) table middle)
      → ((end : List OutboxRow) → rest.table ≡ some end → Aligned (Kept rest.attempts) middle end)
      → (marked around a fault rest).table ≡ some table'
      → Aligned (Kept (marked around a fault rest).attempts) table table'
  unfolding marked
  marked-Kept a (some x) rest table middle table' first later e = ground (arith, e)
  marked-Kept a none rest table middle table' first later e =
      Aligned-trans (Kept (a ∷ rest.attempts)) table middle table' (Kept-trans (a ∷ rest.attempts))
        (first rest.attempts)
        (Aligned-weaken (Kept rest.attempts) (Kept (a ∷ rest.attempts)) middle table'
          (Kept-weaken rest.attempts (a ∷ rest.attempts) (Delivered-later a rest.attempts))
          (later table' e))

  publish_rows-Kept :
      (t : ℕ) (rows table table' : List OutboxRow)
      → (publish_rows around t rows table).table ≡ some table'
      → Aligned (Kept (publish_rows around t rows table).attempts) table table'
  unfolding publish_rows event_of
  publish_rows-Kept t [] table table' e =
      subst (Aligned (Kept []) table) (ground (arith, e))
        (Aligned-refl (Kept []) table (Kept-refl []))
  publish_rows-Kept t (row ∷ rows) table table' e =
      let event : EventMessage = event_of row in
      let answer : Option Error = around.publish t event in
      let middle : List OutboxRow = mark around row.id answer table in
      marked-Kept (event, answer) (around.mark_fault t) (publish_rows around (suc t) rows middle)
        table middle table' (λ done. mark-Kept event answer done table)
        (λ end h. publish_rows-Kept (suc t) rows middle end h) e

  unchanged : (table : List OutboxRow) (done : List Attempt) → Aligned (Kept done) table table
  unchanged table done = Aligned-refl (Kept done) table (Kept-refl done)

  commit-Kept :
      (table : List OutboxRow) (after : Option (List OutboxRow)) (fault : Option Error)
      (done : List Attempt)
      → ((end : List OutboxRow) → after ≡ some end → Aligned (Kept done) table end)
      → Aligned (Kept done) table (commit around table after fault)
  unfolding commit
  commit-Kept table none fault done h = unchanged table done
  commit-Kept table (some end) (some e) done h = unchanged table done
  commit-Kept table (some end) none done h = h end refl

  claimed-Kept :
      (batch_size : ℕ) (table : List OutboxRow) (fault : Option Error)
      → Aligned
          (Kept (claimed around batch_size table fault).1)
          table
          (claimed around batch_size table fault).0
  unfolding claimed
  claimed-Kept batch_size table (some e) = unchanged table []
  claimed-Kept batch_size table none =
      let rows : List OutboxRow =
        get_pending_outbox_events around.now around.locked batch_size table in
      let batch : Batch = publish_rows around 0 rows table in
      commit-Kept table batch.table around.commit_fault batch.attempts
        λ end h. publish_rows-Kept 0 rows table end h

  begun-Kept :
      (batch_size : ℕ) (table : List OutboxRow) (fault : Option Error)
      → Aligned
          (Kept (begun around batch_size table fault).1)
          table
          (begun around batch_size table fault).0
  unfolding begun
  begun-Kept batch_size table (some e) = unchanged table []
  begun-Kept batch_size table none = claimed-Kept batch_size table around.poll_fault

  pub run_once-Kept :
      (batch_size : ℕ) (table : List OutboxRow)
      → Aligned
          (Kept (run_once around batch_size table).1)
          table
          (run_once around batch_size table).0
  unfolding run_once
  run_once-Kept batch_size table = begun-Kept batch_size table around.begin_fault
