-- ===== src/Examples/StoreRuns.antt =====
-- Runs of the repository.
use payment_module.Domain.Aggregate.{peek_events}
use payment_module.Common.{
  ◌≡◌, ◌≢◌, refl, ◌++◌, ◌+◌, none, true, [], ◌∷◌, List, arith, ◌/◌, ◌*◌, ◌-◌,
}
use payment_module.Common.Int.{pos, negsuc}
use payment_module.Errors.{Error, ok, err, is_code, Code}
use payment_module.Domain.Types.{Payment, payment_failed, Time}
use payment_module.Domain.Status.{Status}
use payment_module.Common.Int32.{add}
use payment_module.Store.Rows.{OutboxRow, Db, to_row}
use payment_module.Store.Queries.{
  insert_payment, has_reference, has_payment, update_payment_full, last_event_sequence,
  insert_payment_event, has_sequence,
}
use payment_module.Store.Save.{
  Session, save, save_transaction, write_payment_row, write_refunds, write_events,
  write_outbox_rows, to_outbox_events, saved, is_new_payment,
}
use payment_module.Store.Find.{find_by_id, list_refunds_by_payment}
use payment_module.Store.Locking.{save-conflict, save_once}
use payment_module.Store.Journal.{save_journal, numbered, Announce}
use payment_module.Store.RoundTrip.{find_by_id-save, IsPlain, with_column_times}
use payment_module.Examples.Payments.{show, fresh}

abbrev pub calm : Session
calm = record {
  fault = λ _. none;
  row_id = λ i. i;
  now = pos 99;
  column_time = λ t. t;
  later = λ k db. db;
}

abbrev pub empty : Db
empty = record { payments = []; refunds = []; events = []; outbox = [] }

-- The tables after `fresh` was saved.
abbrev pub stored : Db
stored = (save show calm fresh empty).1

abbrev loaded : Payment
loaded = record fresh { version = 1; events = [] }

abbrev failing : Payment
failing = record loaded {
  status = Status.failed;
  events = payment_failed 1 "GATEWAY_ERROR" "timeout" (pos 20) ∷ [];
}

abbrev after_failing : Db
after_failing = (save show calm failing stored).1

abbrev failed_payment : Payment
failed_payment = record failing { version = 2; events = [] }

fresh-saved : save show calm fresh empty ≡ (ok loaded, stored)
unfolding save save_transaction write_payment_row write_refunds write_events write_outbox_rows
    to_outbox_events saved is_new_payment insert_payment has_reference has_payment
    last_event_sequence insert_payment_event has_sequence peek_events to_row add
fresh-saved = refl

failing-saved : save show calm failing stored ≡ (ok failed_payment, after_failing)
unfolding save save_transaction write_payment_row write_refunds write_events write_outbox_rows
    to_outbox_events saved is_new_payment insert_payment has_reference has_payment
    last_event_sequence insert_payment_event has_sequence update_payment_full to_row peek_events add
failing-saved = refl

save_journal_example :
    (after_failing.events ≡ stored.events ++ numbered 1 2 failing.events)
    × ((rows : List OutboxRow) × (after_failing.outbox ≡ stored.outbox ++ rows)
        × Announce calm failing.events rows)
    × (failed_payment.events ≡ [])
unfolding save save_transaction write_payment_row write_refunds write_events write_outbox_rows
    to_outbox_events saved is_new_payment insert_payment has_reference has_payment
    last_event_sequence insert_payment_event has_sequence to_row peek_events add
save_journal_example =
    save_journal show calm failing failed_payment stored after_failing 1 refl (omega arith)
      failing-saved

save_once_example : save show calm failing after_failing ≢ (ok failed_payment, after_failing)
unfolding is_new_payment
save_once_example =
    save_once show calm calm failing failed_payment failing failed_payment stored after_failing
      after_failing refl refl refl refl failing-saved

save-conflict_example :
    (e : Error) × (save show calm failing empty ≡ (err e, empty)) × (is_code e Code.conflict ≡ true)
unfolding is_new_payment
save-conflict_example = save-conflict show calm failing empty refl refl refl refl

abbrev fresh-IsPlain : IsPlain fresh
fresh-IsPlain = record {
  method_known = refl;
  no_request = refl;
  not_deleted = refl;
  no_refunds = refl;
}

abbrev microsecond : Time → Time
microsecond (pos n) = pos (n / 1000 * 1000)
microsecond (negsuc n) = negsuc ((n / 1000 + 1) * 1000 - 1)

-- The columns keep microseconds of the times, which are in nanoseconds.
abbrev coarse : Session
coarse = record calm { column_time = microsecond }

abbrev coarse_stored : Db
coarse_stored = (save show coarse fresh empty).1

coarse-saved : save show coarse fresh empty ≡ (ok loaded, coarse_stored)
unfolding save save_transaction write_payment_row write_refunds write_events write_outbox_rows
    to_outbox_events saved is_new_payment insert_payment has_reference has_payment
    last_event_sequence insert_payment_event has_sequence peek_events to_row add
coarse-saved = refl

find_by_id-save_example :
    find_by_id show calm 1 coarse_stored ≡ ok (with_column_times microsecond loaded)
unfolding is_new_payment list_refunds_by_payment save save_transaction write_payment_row
    write_refunds peek_events insert_payment to_row has_reference has_payment write_events
    insert_payment_event write_outbox_rows to_outbox_events
find_by_id-save_example =
    find_by_id-save show coarse calm fresh loaded empty coarse_stored fresh-IsPlain refl refl refl
      refl coarse-saved
