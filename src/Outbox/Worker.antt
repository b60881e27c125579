-- ===== src/Outbox/Worker.antt =====
-- RunOnce and Run of internal/adapter/outbound/postgres/outbox_worker.go.
use payment_module.Common.{ℕ, suc, Bool, Option, none, some, List, [], ◌∷◌, ◌++◌}
use payment_module.Errors.{Error, error_text}
use payment_module.Domain.Types.{Time, Uuid}
use payment_module.Store.Rows.{OutboxRow}
use payment_module.Outbox.Publisher.{EventMessage}
use payment_module.Outbox.Queries.{
  get_pending_outbox_events, mark_outbox_event_failed, mark_outbox_event_published,
}

-- What one transaction meets: its NOW(), the rows that other workers hold, the faults of its
-- statements, and what the publisher returns for an event, at a place in the batch.
pub record Surroundings : Type 0 where
  pub now : Time
  pub locked : Uuid → Bool
  pub begin_fault : Option Error
  pub poll_fault : Option Error
  pub mark_fault : ℕ → Option Error
  pub commit_fault : Option Error
  pub publish : ℕ → EventMessage → Option Error

-- An event that was handed to the publisher, with what it returned.
abbrev pub Attempt : Type 0
Attempt = EventMessage × Option Error

-- The table inside the transaction, none when a row could not be marked.
pub record Batch : Type 0 where
  pub table : Option (List OutboxRow)
  pub attempts : List Attempt

unfoldable pub event_of : OutboxRow → EventMessage
event_of row = record {
  id = row.id;
  aggregate_id = row.aggregate_id;
  event_type = row.event_type;
  payload = row.payload;
  occurred_at = row.created_at;
}

module _ (around : Surroundings) where
  unfoldable pub mark : Uuid → Option Error → List OutboxRow → List OutboxRow
  mark id (some e) table = mark_outbox_event_failed around.now id (error_text e) table
  mark id none table = mark_outbox_event_published around.now id table

  -- An error of the marking ends the batch.
  unfoldable pub marked : Attempt → Option Error → Batch → Batch
  marked a (some e) rest = record { table = none; attempts = a ∷ [] }
  marked a none rest = record { table = rest.table; attempts = a ∷ rest.attempts }

  unfoldable pub publish_rows : ℕ → List OutboxRow → List OutboxRow → Batch
  unfolding mark marked event_of
  publish_rows t [] table = record { table = some table; attempts = [] }
  publish_rows t (row ∷ rows) table =
      let event = event_of row in
      let answer = around.publish t event in
      marked (event, answer) (around.mark_fault t)
        (publish_rows (suc t) rows (mark row.id answer table))

  -- Committed, or rolled back to the table as it was.
  unfoldable pub commit : List OutboxRow → Option (List OutboxRow) → Option Error → List OutboxRow
  commit before none fault = before
  commit before (some table) (some e) = before
  commit before (some table) none = table

  unfoldable pub claimed :
      (batch_size : ℕ) → List OutboxRow → Option Error → List OutboxRow × List Attempt
  unfolding publish_rows commit
  claimed batch_size table (some e) = (table, [])
  claimed batch_size table none =
      let batch =
        publish_rows 0 (get_pending_outbox_events around.now around.locked batch_size table)
          table in
      (commit table batch.table around.commit_fault, batch.attempts)

  unfoldable pub begun :
      (batch_size : ℕ) → List OutboxRow → Option Error → List OutboxRow × List Attempt
  unfolding claimed
  begun batch_size table (some e) = (table, [])
  begun batch_size table none = claimed batch_size table around.poll_fault

  -- The table afterwards, and the events that were handed to the publisher.
  unfoldable pub run_once : (batch_size : ℕ) → List OutboxRow → List OutboxRow × List Attempt
  unfolding begun
  run_once batch_size table = begun batch_size table around.begin_fault

-- One pass of a replica, whose transactions take effect one after the other: a pass leaves the rows that
-- another one holds locked.
pub record Pass : Type 0 where
  pub batch_size : ℕ
  pub around : Surroundings

unfoldable pub passes : List Pass → List OutboxRow → List OutboxRow × List Attempt
unfolding run_once
passes [] table = (table, [])
passes (x ∷ xs) table =
    let (passed, attempts) = run_once x.around x.batch_size table in
    let (end, more) = passes xs passed in (end, attempts ++ more)

-- A tick of Run: the rows that were inserted and the passes of other replicas that were committed since
-- the last pass, and what this pass meets.
pub record Tick : Type 0 where
  pub arrived : List OutboxRow
  pub others : List Pass
  pub around : Surroundings

-- The ticks are those until the context ends.
unfoldable pub run : (batch_size : ℕ) → List Tick → List OutboxRow → List OutboxRow × List Attempt
unfolding passes
run batch_size [] table = (table, [])
run batch_size (t ∷ ticks) table =
    let own : Pass = record { batch_size = batch_size; around = t.around } in
    let (passed, attempts) = passes (t.others ++ own ∷ []) (table ++ t.arrived) in
    let (end, more) = run batch_size ticks passed in (end, attempts ++ more)
