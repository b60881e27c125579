-- ===== src/Examples/OutboxRuns.antt =====
-- Runs of the outbox worker, and of the recorder of attempts.
use payment_module.Common.{
  ◌≡◌, refl, some, none, false, [], ◌∷◌, List, Aligned, All, arith, if◌then◌else◌, ◌==◌,
}
use payment_module.Common.Int.{pos}
use payment_module.Errors.{plain}
use payment_module.Domain.Types.{payment_initiated, payment_expired}
use payment_module.Ports.Attempt.{Attempt, blank, GatewayOperation}
use payment_module.Store.Rows.{OutboxRow, OutboxStatus}
use payment_module.Store.Attempts.{Traffic, record_attempt, numbered}
use payment_module.Store.Numbering.{Numbered, record_attempt-Numbered, record_attempt-succeeds}
use payment_module.Outbox.Publisher.{Broker, EventMessage, publish, acked, routing_key}
use payment_module.Outbox.Worker.{Surroundings, Tick, run}
use payment_module.Outbox.Delivery.{Kept}
use payment_module.Outbox.Passes.{with_arrivals, run-Kept, run-InCount}
use payment_module.Outbox.Retries.{InCount, fail_at, BackedOff, fail_at-BackedOff}
use payment_module.Outbox.Routing.{Confirmed, publish-Confirmed}

abbrev row : OutboxRow
row = record {
  id = 5;
  aggregate_id = 1;
  event_type = "PaymentInitiated";
  payload = payment_initiated 1 (pos 10);
  status = OutboxStatus.pending;
  retry_count = 0;
  last_error = none;
  scheduled_at = pos 10;
  published_at = none;
  created_at = pos 10;
}

abbrev late_row : OutboxRow
late_row = record row {
  id = 6;
  event_type = "PaymentExpired";
  payload = payment_expired 1 (pos 11);
  retry_count = 5;
}

abbrev table : List OutboxRow
table = row ∷ []

-- The publisher takes the first event of a batch and fails on the second.
abbrev around : Surroundings
around = record {
  now = pos 20;
  locked = λ id. false;
  begin_fault = none;
  poll_fault = none;
  mark_fault = λ t. none;
  commit_fault = none;
  publish = λ t event. if t == 0 then none else some (plain "nack");
}

-- The late row arrives before the second pass, and another replica handles it first.
abbrev ticks : List Tick
ticks =
    record { arrived = []; others = []; around = around }
    ∷ record {
      arrived = late_row ∷ [];
      others = record { batch_size = 5; around = around } ∷ [];
      around = around;
    }
    ∷ []

run-Kept_example :
    Aligned (Kept (run 10 ticks table).1) (with_arrivals table ticks) (run 10 ticks table).0
run-Kept_example = run-Kept 10 ticks table

run-InCount_example : All InCount (run 10 ticks table).0
run-InCount_example = run-InCount 10 ticks table (omega arith, tt) (tt, ((omega arith, tt), tt))

fail_at-BackedOff_example :
    BackedOff 3
      (pos 90)
      "nack"
      (fail_at ((pos 20, "nack") ∷ (pos 50, "timeout") ∷ (pos 90, "nack") ∷ []) row)
fail_at-BackedOff_example =
    fail_at-BackedOff ((pos 20, "nack") ∷ (pos 50, "timeout") ∷ []) (pos 90) "nack" row refl

abbrev broker : Broker
broker = record {
  clock = λ t. pos t;
  is_zero = λ t. false;
  marshal = λ body. none;
  confirm = λ t rk body. acked;
}

abbrev event : EventMessage
event = record {
  id = 5;
  aggregate_id = 1;
  event_type = "PaymentInitiated";
  payload = payment_initiated 1 (pos 10);
  occurred_at = pos 10;
}

publish-Confirmed_example : Confirmed broker 0 event
unfolding publish routing_key
publish-Confirmed_example =
    publish-Confirmed broker 0 event (payment_initiated 1 (pos 10)) refl refl

abbrev attempt : Attempt
attempt = blank 1 GatewayOperation.charge "tx-1" (pos 1000000)

-- Another charge of the payment takes the number between the first try's reading and writing.
abbrev traffic : Traffic
traffic = record {
  earlier = λ t. [];
  racing = λ t. if t == 0 then numbered attempt 1 ∷ [] else [];
  fault = λ t. none;
  violation = plain "duplicate key";
  marshal = λ payload. none;
}

record_attempt-Numbered_example : Numbered attempt (record_attempt traffic attempt []).1
unfolding record_attempt numbered
record_attempt-Numbered_example = record_attempt-Numbered traffic attempt [] refl

record_attempt-succeeds_example : (record_attempt traffic attempt []).0 ≡ none
record_attempt-succeeds_example =
    record_attempt-succeeds traffic attempt 1 [] refl (λ s. refl) (omega arith) refl
