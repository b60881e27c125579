-- ===== src/Command/Create.antt =====
-- internal/application/command/create_payment.go
use payment_module.Common.{String, ◌<>◌, Option, if◌then◌else◌, some}
use payment_module.Common.Int.{ℤ, ◌-ℤ◌}
use payment_module.Common.Int64.{Int64}
use payment_module.Errors.{
  Error, Result, ok, err, Code, is_code, is_unknown, error_text, invalid_input, already_exists,
  gateway_error,
}
use payment_module.Json.{Payload}
use payment_module.Domain.Status.{status_text}
use payment_module.Domain.Method.{Method, method_text, parse_method}
use payment_module.Domain.Types.{Time, Payment, new_money}
use payment_module.Domain.Aggregate.{new, mark_pending, mark_completed, mark_failed}
use payment_module.Ports.Gateway.{
  Gateway, CreateTransactionRequest, GatewayResponse, NextAction, TransactionStatus,
}
use payment_module.Ports.Attempt.{Attempt, blank, failed_attempt, GatewayOperation, AttemptOutcome}
use payment_module.Command.World.{
  Env, Action, pure, raise, lift, attempt, done, warn, complain, ◌>>=◌, ◌>>◌,
}
use payment_module.Command.Calls.{
  now, fresh_uuid, find_by_reference, create_transaction, record_attempt, save,
}

pub record CreatePaymentCommand : Type 0 where
  pub reference_id : String
  pub caller_service : String
  pub amount : Int64
  pub currency : String
  pub gateway_type : String
  pub payment_method_type : String
  pub bank_code : String
  pub card_token : String
  pub return_url : String
  pub customer_name : String
  pub customer_email : String
  pub customer_phone : String
  pub customer_external_id : String
  pub description : String
  pub expired_at : Option Time
  pub metadata : Payload

pub record CreatePaymentResult : Type 0 where
  pub payment : Payment
  pub next_action : NextAction

-- apperror.InvalidInput(err.Error())
as_invalid_input : {A : Type 0} → Result A → Result A
as_invalid_input (ok a) = ok a
as_invalid_input (err e) = err (invalid_input (error_text e))

-- The attempt that records an answered charge.
charge_attempt : Payment → ℤ → GatewayResponse → Attempt
charge_attempt p duration resp =
    let a : Attempt =
      record (blank p.id GatewayOperation.charge resp.gateway_transaction_id duration) {
        outcome = AttemptOutcome.succeeded;
        gateway_response = resp.raw_response;
      } in
    elim resp.status [
      | TransactionStatus.failed ↦ record a {
        outcome = AttemptOutcome.failed;
        error_code = "DECLINED";
      }
      | _ ↦ a
    ]

-- The switch on the charge's status, for charges that finish at once.
unfoldable pub finish_at_once : Time → Time → TransactionStatus → Payment → Result Payment
finish_at_once at paid_at TransactionStatus.settled p = mark_completed at paid_at p
finish_at_once at paid_at TransactionStatus.failed p =
    mark_failed at "DECLINED" "declined by gateway at charge time" p
finish_at_once at paid_at _ p = ok p

-- `_ = p.MarkFailed(…)`: a refusal leaves the payment as it was.
abbrev pub or_unchanged : Payment → Result Payment → Payment
or_unchanged p (ok q) = q
or_unchanged p (err e) = p

module _ (env : Env) where
  -- The validated command as a payment: NewMoney, ParseMethod and New.
  unfoldable pub build : CreatePaymentCommand → Action Payment
  unfolding as_invalid_input
  build cmd = do
    money ← lift (as_invalid_input (new_money env.print cmd.amount cmd.currency))
    method ← lift (parse_method cmd.payment_method_type)
    at ← now env
    id ← fresh_uuid env
    lift (
        new at id cmd.reference_id cmd.caller_service money cmd.gateway_type method
          (record {
            external_id = cmd.customer_external_id;
            name = cmd.customer_name;
            email = cmd.customer_email;
            phone = cmd.customer_phone;
          })
          cmd.description cmd.expired_at cmd.metadata)

  -- The switch on the result of FindByReference.
  unfoldable pub require_unused : CreatePaymentCommand → Result Payment → Action (Unit {0})
  require_unused cmd (ok existing) = raise (
      already_exists (
        "payment "
        <> (env.show existing.id
            <> (" already exists for reference_id "
                <> (cmd.reference_id <> (" (status " <> (status_text existing.status <> ")")))))))
  require_unused cmd (err e) = if is_code e Code.not_found then done else raise e

  require_charge : CreatePaymentCommand → Method → Gateway → Action Gateway
  require_charge cmd method gw =
      if (gw.capability method).charge
      then pure gw
      else raise (
          invalid_input
            (cmd.gateway_type <> (" does not support payment_method_type " <> method_text method)))

  unfoldable pub chargeable_gateway : CreatePaymentCommand → Method → Action Gateway
  unfolding require_charge
  chargeable_gateway cmd method = elim (env.factory cmd.gateway_type) [
    | ok gw ↦ require_charge cmd method gw
    | err e ↦ raise (invalid_input ("unsupported gateway: " <> cmd.gateway_type))
  ]

  unfoldable pub charge_request : CreatePaymentCommand → Payment → CreateTransactionRequest
  charge_request cmd p = record {
    payment_id = env.show p.id;
    reference_id = cmd.reference_id;
    amount = cmd.amount;
    currency = cmd.currency;
    payment_method = p.payment_method_type;
    bank_code = cmd.bank_code;
    card_token = cmd.card_token;
    return_url = cmd.return_url;
    customer_name = cmd.customer_name;
    customer_email = cmd.customer_email;
    customer_phone = cmd.customer_phone;
    description = cmd.description;
    expired_at = cmd.expired_at;
    metadata = cmd.metadata;
  }

  -- chargeFailed when the outcome is unknown, after the save.
  unfoldable pub unknown_stored : Payment → Error → Result Payment → Action CreatePaymentResult
  unknown_stored p e (err save_err) = do
    complain "charge outcome unknown and payment not stored; check the gateway for order_id"
    raise e
  unknown_stored p e (ok _) = do
    warn "charge outcome unknown; payment left INITIATED for reconciliation"
    raise (
        gateway_error
          ("the gateway did not confirm the charge; payment "
            <> (env.show p.id
                <> (" will be reconciled shortly, check GET /payments/" <> env.show p.id)))
          (some e))

  unfoldable pub warn_unless_saved : Result Payment → Action (Unit {0})
  warn_unless_saved (ok _) = done
  warn_unless_saved (err _) = warn "failed to record gateway failure"

  unfoldable pub charge_refused : Payment → Error → Action CreatePaymentResult
  unfolding warn_unless_saved
  charge_refused p e = do
    at ← now env
    r ← attempt (save env (or_unchanged p (mark_failed at "GATEWAY_ERROR" (error_text e) p)))
    warn_unless_saved r
    raise e

  unfoldable pub charge_unknown : Payment → Error → Action CreatePaymentResult
  unfolding unknown_stored
  charge_unknown p e = do r ← attempt (save env p); unknown_stored p e r

  unfoldable pub charge_failed : Payment → Error → Action CreatePaymentResult
  unfolding charge_refused charge_unknown
  charge_failed p e = if is_unknown e then charge_unknown p e else charge_refused p e

  unfoldable pub charge_errored : Payment → Time → Error → Action CreatePaymentResult
  charge_errored p started e = do
    at ← now env
    record_attempt env (failed_attempt (blank p.id GatewayOperation.charge "" (at -ℤ started)) e)
    charge_failed p e

  unfoldable pub stored_charge : GatewayResponse → Payment → Action CreatePaymentResult
  stored_charge resp r = do
    stored ← save env r
    pure (record { payment = stored; next_action = resp.next_action })

  -- From the switch on resp.Status to the result.
  unfoldable pub conclude : GatewayResponse → Payment → Action CreatePaymentResult
  unfolding stored_charge
  conclude resp q = do
    paid_at ← now env
    at ← now env
    r ← lift (finish_at_once at paid_at resp.status q)
    stored_charge resp r

  -- What follows the call of CreateTransaction.
  unfoldable pub answered : Payment → Time → Result GatewayResponse → Action CreatePaymentResult
  unfolding charge_errored charge_attempt conclude
  answered p started (err e) =
      if is_code e Code.invalid_input then raise e else charge_errored p started e
  answered p started (ok resp) = do
    ended ← now env
    record_attempt env (charge_attempt p (ended -ℤ started) resp)
    at ← now env
    q ← lift (mark_pending at resp.gateway_transaction_id resp.raw_response p)
    conclude resp q

  unfoldable pub handle : CreatePaymentCommand → Action CreatePaymentResult
  handle cmd = do
    p ← build cmd
    existing ← attempt (find_by_reference env cmd.reference_id cmd.caller_service)
    require_unused cmd existing
    gw ← chargeable_gateway cmd p.payment_method_type
    started ← now env
    r ← create_transaction env gw (charge_request cmd p)
    answered p started r
