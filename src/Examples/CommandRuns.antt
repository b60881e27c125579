-- ===== src/Examples/CommandRuns.antt =====
-- Runs of the command handlers with a gateway that answers.
use payment_module.Command.CallbackQuiet.{closed_webhook_only_logs, refund_request}
use payment_module.Command.Callback.{
  ProcessCallbackCommand, adopt_transaction, apply_notification, apply_refund_notifications,
  apply_status, apply_verdict, find_payment, handle, report_late_money, settle_status, verdict,
}
use payment_module.Command.World.{LogLine}
use payment_module.Domain.Invariant.{IsValid}
use payment_module.Common.Int32
use payment_module.Expiry.Pass.{run_once-Ran}
use payment_module.Command.Locked.{Tick}
use payment_module.Command.LockedPasses.{Ran, Skipped}
use payment_module.Command.ReconcileRefunds
use payment_module.Expiry.Job
use payment_module.Examples.Gateways.{
  charged_at_once, known, notice, refund_notice, gateway, env, world_of, nowhere, creation,
  refund_command, charge_result, confirmed, config, refused_charge, strange_command, awaited,
  given_up, cancel_command,
}
use payment_module.Command.CancelSteps.{EndsAsSave, handle_cancel-EndsAsSave}
use payment_module.Command.Cancel.{handle_cancel}
use payment_module.Command.RetrySteps.{retry_refunds-Follows}
use payment_module.Command.ReconcileRefunds.{retry_refunds}
use payment_module.Command.CreateErrors.{StoresError, answered-StoresError}
use payment_module.Command.CreateOutcome.{Charged, answered-Charged}
use payment_module.Store.Queries.{
  insert_payment, has_reference, has_payment, last_event_sequence, insert_payment_event,
  has_sequence,
}
use payment_module.Command.RefundReplay.{replay_quiet, stranger_learns_nothing}
use payment_module.Domain.Method.{method_of}
use payment_module.Store.Save.{
  saved, save_transaction, write_payment_row, write_refunds, write_events, write_outbox_rows,
  to_outbox_events, is_new_payment,
}
use payment_module.Store.Find.{select, with_refunds, list_refunds_by_payment}
use payment_module.Command.CallbackSteps.{Follows, apply_notification-Follows}
use payment_module.Common.Int64.{add}
use payment_module.Command.ReconcileSteps.{Decides, settle_charge-Decides}
use payment_module.Command.Calls.{now, record_attempt}
use payment_module.Domain.Refunds.{
  find_refund, complete_refund, complete_found, find_reference, confirm, put_refund,
  refunded_amount, sum_amounts,
}
use payment_module.Domain.Aggregate.{mark_pending, mark_completed, peek_events, cancel}
use payment_module.Command.CallbackClosed.{apply_notification-final}
use payment_module.Command.Reconcile.{settle_charge}
use payment_module.Common.{
  ◌≡◌, refl, true, false, [], ◌∷◌, arith, Option, Bool, none, List, ◌⊎◌, ◌++◌,
}
use payment_module.Common.Int.{pos}
use payment_module.Errors.{ok, err}
use payment_module.Domain.Types.{Payment}
use payment_module.Store.Rows.{to_row, to_refund_params, to_domain, to_refund}
use payment_module.Command.Create
use payment_module.Command.Create.{
  CreatePaymentCommand, CreatePaymentResult, answered, charge_errored, conclude, stored_charge,
  finish_at_once,
}
use payment_module.Command.CreateSafe.{charge_once, Charges}
use payment_module.Command.Refund
use payment_module.Command.Refund.{RefundPaymentCommand}
use payment_module.Command.RefundSafe.{refund_once, Asked}
use payment_module.Examples.Payments.{fresh, waiting, cancelled, some_refund, paid}
use payment_module.Store.Find
use payment_module.Command.Calls
use payment_module.Store.Save
use payment_module.Domain.Status.{RefundStatus}

charge_once_example : Charges env creation [] (Create.handle env creation nowhere).1.sent
charge_once_example = charge_once env creation nowhere

refund_once_example :
    Asked env refund_command [] (Refund.handle env refund_command (world_of paid)).1.sent
refund_once_example = refund_once env refund_command (world_of paid)

answered-Charged_example : Charged charged_at_once fresh charge_result.payment
unfolding answered charge_errored conclude stored_charge finish_at_once mark_pending mark_completed
    now Calls.save record_attempt Save.save saved save_transaction write_payment_row write_refunds
    write_events write_outbox_rows to_outbox_events is_new_payment insert_payment has_reference
    has_payment last_event_sequence insert_payment_event has_sequence peek_events to_row Int32.add
answered-Charged_example =
    answered-Charged env fresh (pos 0) charged_at_once nowhere charge_result refl

apply_notification-Follows_example : Follows waiting (confirmed, true)
unfolding apply_notification apply_refund_notifications apply_verdict verdict find_refund
    complete_refund complete_found confirm put_refund refunded_amount sum_amounts add now
    adopt_transaction apply_status settle_status report_late_money
apply_notification-Follows_example =
    apply_notification-Follows env refund_notice waiting nowhere confirmed true refl

apply_notification-final_example : cancelled ≡ cancelled
unfolding apply_notification apply_refund_notifications adopt_transaction apply_status settle_status
    report_late_money find_refund find_reference
apply_notification-final_example =
    apply_notification-final env notice cancelled nowhere cancelled false (ground arith) refl refl

settle_charge-Decides_example :
    (result : Option Payment) × ((settle_charge env gateway fresh (ok known) nowhere).0 ≡ ok result)
    × Decides known fresh result
settle_charge-Decides_example = settle_charge-Decides env gateway fresh known nowhere

retry_refunds-Follows_example :
    (t : Payment × Bool) × ((retry_refunds env config gateway
        (pos 50)
        waiting.refunds
        waiting
        false
        nowhere).0
      ≡ ok t)
    × Follows waiting t
retry_refunds-Follows_example = retry_refunds-Follows env config gateway (pos 50) waiting nowhere

answered-StoresError_example :
    StoresError env fresh refused_charge nowhere
      (answered env fresh (pos 0) (err refused_charge) nowhere)
answered-StoresError_example = answered-StoresError env fresh (pos 0) refused_charge nowhere refl

replay_quiet_example :
    (Refund.handle env refund_command (world_of waiting)).1
    ≡ (Calls.find_by_id env 1 (world_of waiting)).1
unfolding Calls.find_by_id Find.find_by_id select with_refunds to_row to_domain
    list_refunds_by_payment to_refund to_refund_params find_reference method_of
replay_quiet_example =
    replay_quiet env refund_command (world_of waiting) (Calls.find_by_id env 1 (world_of waiting)).1
      waiting (some_refund RefundStatus.pending (pos 40)) refl refl

stranger_learns_nothing_example :
    (Refund.handle env strange_command (world_of paid)).0
    ≡ (Refund.handle env strange_command nowhere).0
unfolding Calls.find_by_id Find.find_by_id select with_refunds to_row to_domain
    list_refunds_by_payment to_refund method_of
stranger_learns_nothing_example =
    stranger_learns_nothing env strange_command (world_of paid)
      (Calls.find_by_id env 1 (world_of paid)).1 paid nowhere refl refl refl refl refl

handle_cancel-EndsAsSave_example :
    EndsAsSave env given_up
      (world_of awaited).db
      (handle_cancel env cancel_command (world_of awaited))
unfolding Calls.find_by_id Find.find_by_id select with_refunds to_row to_domain
    list_refunds_by_payment method_of cancel
handle_cancel-EndsAsSave_example =
    handle_cancel-EndsAsSave env cancel_command (world_of awaited)
      (Calls.find_by_id env 1 (world_of awaited)).1 awaited given_up refl refl refl

-- The lock is free at the first tick, and another replica holds it at the second.
abbrev ticks : List Tick
ticks =
    record { elsewhere = λ c. c; fault = none }
    ∷ record { elsewhere = λ c. (ReconcileRefunds.reconcile_lock_key, "1") ∷ c; fault = none }
    ∷ []

abbrev tick : Tick
tick = record { elsewhere = λ c. []; fault = none }

run_once-Ran_example :
    (Ran env Job.expiry_lock_key
        (Job.expire_batch env)
        tick
        (world_of paid)
        (Job.run_once env tick (world_of paid))
      ⊎ Skipped Job.expiry_lock_key tick (world_of paid) (Job.run_once env tick (world_of paid)))
    × ((Job.run_once env tick (world_of paid)).1.sent ≡ [])
run_once-Ran_example = run_once-Ran env tick (world_of paid)

-- A cancelled payment with the transaction of the notice.
abbrev closed : Payment
closed = record cancelled { gateway_transaction_id = "tx-1"; version = 1; events = [] }

abbrev webhook : ProcessCallbackCommand
webhook = record { gateway_type = "midtrans"; raw_payload = []; headers = [] }

closed-IsValid : IsValid closed
closed-IsValid = ground arith

closed_webhook_only_logs_example :
    (lines : List LogLine) × (handle env webhook (world_of closed) ≡ (
      ok tt,
      record (find_payment env notice (world_of closed)).1 {
        log = lines ++ refund_request notice.status closed.status;
      },
    ))
unfolding find_payment Calls.find_by_gateway_transaction_id Find.find_by_gateway_transaction_id
    select with_refunds to_row to_domain list_refunds_by_payment method_of
closed_webhook_only_logs_example =
    closed_webhook_only_logs env webhook gateway notice closed (world_of closed)
      (find_payment env notice (world_of closed)).1 refl refl refl closed-IsValid refl
