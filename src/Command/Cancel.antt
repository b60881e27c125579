-- ===== src/Command/Cancel.antt =====
-- internal/application/command/cancel_payment.go and force_expire.go
use payment_module.Common.{String, ◌<>◌, not, Option, none, some, is_empty, str_eq, if◌then◌else◌}
use payment_module.Common.Int.{ℤ, ◌-ℤ◌}
use payment_module.Errors.{Error, Result, ok, err, not_found}
use payment_module.Domain.Types.{Uuid, Payment}
use payment_module.Domain.Aggregate.{cancel, mark_expired}
use payment_module.Ports.Gateway.{Gateway}
use payment_module.Ports.Attempt.{Attempt, blank, failed_attempt, GatewayOperation, AttemptOutcome}
use payment_module.Command.World.{Env, Action, raise, lift, done, warn, ◌>>=◌, ◌>>◌}
use payment_module.Command.Calls.{
  now, find_by_id, cancel_transaction, record_attempt, save, drop_cached,
}

pub record CancelPaymentCommand : Type 0 where
  pub payment_id : Uuid
  pub caller_service : String

-- The attempt that records a call of CancelTransaction.
unfoldable pub cancel_attempt : Uuid → String → ℤ → Option Error → Attempt
cancel_attempt payment_id tx duration answer =
    let a : Attempt = record (blank payment_id GatewayOperation.cancel tx duration) {
      outcome = AttemptOutcome.succeeded;
    } in
    elim answer [ none ↦ a | some e ↦ failed_attempt a e ]

module _ (env : Env) where
  unfoldable pub warn_of_cancel : Option Error → Action (Unit {0})
  warn_of_cancel none = done
  warn_of_cancel (some _) = warn "gateway cancel failed, continuing with local cancel"

  -- A gateway that refuses or fails does not stop the cancellation here.
  unfoldable pub cancel_at : Gateway → Payment → Action (Unit {0})
  unfolding warn_of_cancel
  cancel_at gw p = do
    started ← now env
    answer ← cancel_transaction env gw p.gateway_transaction_id
    ended ← now env
    warn_of_cancel answer
    record_attempt env (cancel_attempt p.id p.gateway_transaction_id (ended -ℤ started) answer)

  unfoldable pub cancel_with : Result Gateway → Payment → Action (Unit {0})
  unfolding cancel_at
  cancel_with (err e) p = done
  cancel_with (ok gw) p = if is_empty p.gateway_transaction_id then done else cancel_at gw p

  unfoldable pub check_owner : CancelPaymentCommand → Payment → Action (Unit {0})
  check_owner cmd p =
      if not (str_eq p.caller_service cmd.caller_service)
      then raise (not_found ("payment not found: " <> env.show cmd.payment_id))
      else done

  -- CancelPaymentHandler.Handle
  unfoldable pub handle_cancel : CancelPaymentCommand → Action (Unit {0})
  unfolding cancel_with check_owner
  handle_cancel cmd = do
    p ← find_by_id env cmd.payment_id
    check_owner cmd p
    at ← now env
    q ← lift (cancel at p)
    cancel_with (env.factory q.gateway_type) q
    stored ← save env q
    drop_cached env stored

  -- ForceExpireHandler.Handle
  unfoldable pub handle_force_expire : Uuid → Action (Unit {0})
  handle_force_expire payment_id = do
    p ← find_by_id env payment_id
    at ← now env
    q ← lift (mark_expired at p)
    stored ← save env q
    drop_cached env stored
