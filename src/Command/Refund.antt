-- ===== src/Command/Refund.antt =====
-- internal/application/command/refund_payment.go
use payment_module.Common.{
  String, ◌<>◌, Bool, true, false, not, ◌&&◌, ◌||◌, Option, none, some, is_empty, str_eq,
  if◌then◌else◌,
}
use payment_module.Common.Int.{ℤ, pos, ◌-ℤ◌, eqb_ℤ}
use payment_module.Common.Int64.{Int64}
use payment_module.Errors.{
  Result, ok, err, Code, is_code, not_found, invalid_input, invalid_state, idempotency_conflict,
  internal,
}
use payment_module.Domain.Method.{method_text}
use payment_module.Domain.Types.{Time, Uuid, Payment, Refund}
use payment_module.Domain.Refunds.{
  find_reference, find_refund, refundable_amount, request_refund, complete_refund, fail_refund,
}
use payment_module.Ports.Gateway.{Gateway, MethodCapability, RefundRequest, RefundResult}
use payment_module.Ports.Attempt.{Attempt, blank, failed_attempt, GatewayOperation, AttemptOutcome}
use payment_module.Command.World.{
  Env, Action, pure, raise, lift, attempt, done, warn, complain, ◌>>=◌, ◌>>◌,
}
use payment_module.Command.Calls.{
  now, fresh_uuid, find_by_id, create_refund, record_attempt, save, drop_cached,
}

pub record RefundPaymentCommand : Type 0 where
  pub payment_id : Uuid
  pub reference_id : String
  pub amount : Int64
  pub reason : String
  pub caller_service : String
  pub admin : Bool

pub record RefundPaymentResult : Type 0 where
  pub payment : Payment
  pub refund : Option Refund
  pub replayed : Bool

-- The attempt that records a call of CreateRefund.
unfoldable pub refund_attempt : Payment → Refund → ℤ → Result RefundResult → Attempt
refund_attempt p r duration (err e) =
    record (failed_attempt
      (record (blank p.id GatewayOperation.refund p.gateway_transaction_id duration) {
        refund_id = some r.id;
      })
      e) { outcome = AttemptOutcome.unknown }
refund_attempt p r duration (ok res) =
    let a : Attempt =
      record (blank p.id GatewayOperation.refund p.gateway_transaction_id duration) {
        refund_id = some r.id;
        gateway_response = res.raw_response;
      } in
    if res.accepted then record a { outcome = AttemptOutcome.succeeded } else record a {
      outcome = AttemptOutcome.failed;
      error_code = "DECLINED";
      error_message = res.decline_reason;
    }

abbrev pub refund_request : (Uuid → String) → Payment → Refund → RefundRequest
refund_request show p r = record {
  gateway_transaction_id = p.gateway_transaction_id;
  refund_key = show r.id;
  amount = r.amount;
  reason = r.reason;
}

module _ (env : Env) where
  -- callRefund
  unfoldable pub call_refund : Gateway → Payment → Refund → Action (Result RefundResult)
  call_refund gw p r = do
    started ← now env
    res ← create_refund env gw (refund_request env.show p r)
    ended ← now env
    record_attempt env (refund_attempt p r (ended -ℤ started) res)
    pure res

  -- The closure `apply`: the gateway's decision on the refund.
  unfoldable pub apply_decision : Uuid → RefundResult → Time → Payment → Result Payment
  apply_decision refund_id res at p =
      if res.accepted
      then complete_refund env.show at refund_id res.gateway_refund_id p
      else fail_refund env.show at refund_id res.decline_reason p

  -- The reload of saveOutcome, after a CONFLICT.
  unfoldable pub save_again : Uuid → (Time → Payment → Result Payment) → Action Payment
  save_again id fn = do
    fresh ← find_by_id env id
    at ← now env
    changed ← lift (fn at fresh)
    save env changed

  unfoldable pub retry_on_conflict :
      Uuid → (Time → Payment → Result Payment) → Result Payment → Action Payment
  retry_on_conflict id fn (ok p) = pure p
  retry_on_conflict id fn (err e) = if is_code e Code.conflict then save_again id fn else raise e

  unfoldable pub save_outcome : Payment → (Time → Payment → Result Payment) → Action Payment
  unfolding retry_on_conflict save_again
  save_outcome p fn = do
    at ← now env
    changed ← lift (fn at p)
    r ← attempt (save env changed)
    retry_on_conflict p.id fn r

  unfoldable pub check_owner : RefundPaymentCommand → Payment → Action (Unit {0})
  check_owner cmd p =
      if not cmd.admin && not (str_eq p.caller_service cmd.caller_service)
      then raise (not_found ("payment not found: " <> env.show cmd.payment_id))
      else done

  unfoldable pub replay : RefundPaymentCommand → Payment → Refund → Action RefundPaymentResult
  replay cmd p existing =
      if not (eqb_ℤ cmd.amount (pos 0)) && not (eqb_ℤ cmd.amount existing.amount)
      then raise
          (idempotency_conflict "refund reference_id was already used with a different amount")
      else pure (record { payment = p; refund = some existing; replayed = true })

  unfoldable pub refund_gateway : Payment → Action Gateway
  refund_gateway p = elim (env.factory p.gateway_type) [
    | ok gw ↦ pure gw
    | err e ↦ raise (internal ("no gateway configured for " <> p.gateway_type) (some e))
  ]

  -- 0 refunds everything still refundable.
  unfoldable pub asked_amount : RefundPaymentCommand → Payment → Int64
  asked_amount cmd p = if eqb_ℤ cmd.amount (pos 0) then refundable_amount p else cmd.amount

  unfoldable pub check_capability : MethodCapability → Int64 → Payment → Action (Unit {0})
  check_capability cap amount p =
      if not cap.refund
      then raise (
          invalid_state (
            method_text p.payment_method_type
            <> (" payments can't be refunded through "
                <> (p.gateway_type <> "; refund the customer outside PayGate"))))
      else if not cap.partial_refund
          && (not (eqb_ℤ amount p.amount.amount)
              || not (eqb_ℤ (refundable_amount p) p.amount.amount))
      then raise (
          invalid_input
            (method_text p.payment_method_type <> " payments can only be refunded in full"))
      else done

  -- `payment` is the aggregate after RequestRefund: it is saved, and no longer served from the cache.
  unfoldable pub store_opened : Gateway → Payment × Refund → Action (Payment × Refund × Gateway)
  store_opened gw (q, r) = do stored ← save env q; drop_cached env stored; pure (stored, r, gw)

  -- RequestRefund, with the arguments that the handler gives it.
  unfoldable pub opened_refund :
      RefundPaymentCommand → Payment → Time → Uuid → Result (Payment × Refund)
  unfolding asked_amount
  opened_refund cmd p at id =
      request_refund env.print at id cmd.reference_id (asked_amount cmd p) cmd.reason
        (if cmd.admin then "admin" else cmd.caller_service) p

  -- Opens the refund and stores it, which reserves its amount.
  unfoldable pub reserve : RefundPaymentCommand → Payment → Action (Payment × Refund × Gateway)
  unfolding refund_gateway asked_amount check_capability store_opened opened_refund
  reserve cmd p = do
    gw ← refund_gateway p
    check_capability (gw.capability p.payment_method_type) (asked_amount cmd p) p
    at ← now env
    id ← fresh_uuid env
    opened ← lift (opened_refund cmd p at id)
    store_opened gw opened

  unfoldable pub complain_on_error : Result Payment → Action Payment
  complain_on_error (ok p) = pure p
  complain_on_error (err e) = do complain "refund outcome not recorded"; raise e

  unfoldable pub decided : Payment → Refund → Result RefundResult → Action RefundPaymentResult
  decided p r (err e) = do
    warn "refund outcome unknown; left PENDING for the gateway's refund notification"
    pure (record { payment = p; refund = some r; replayed = false })
  decided p r (ok res) = do
    outcome ← attempt (save_outcome p (apply_decision r.id res))
    q ← complain_on_error outcome
    drop_cached env q
    pure (record { payment = q; refund = find_refund r.id q.refunds; replayed = false })

  -- Asks the gateway for a stored refund, and records its decision.
  unfoldable pub settle : Payment × Refund × Gateway → Action RefundPaymentResult
  unfolding decided complain_on_error
  settle (p, r, gw) = do res ← call_refund gw p r; decided p r res

  unfoldable pub open_refund :
      RefundPaymentCommand → Payment → Option Refund → Action RefundPaymentResult
  open_refund cmd p (some existing) = replay cmd p existing
  open_refund cmd p none = do opened ← reserve cmd p; settle opened

  unfoldable pub check_reference : RefundPaymentCommand → Action (Unit {0})
  check_reference cmd =
      if is_empty cmd.reference_id then raise (invalid_input "reference_id is required") else done

  unfoldable pub handle : RefundPaymentCommand → Action RefundPaymentResult
  unfolding check_owner check_reference open_refund replay
  handle cmd = do
    p ← find_by_id env cmd.payment_id
    check_owner cmd p
    check_reference cmd
    open_refund cmd p (find_reference cmd.reference_id p.refunds)
