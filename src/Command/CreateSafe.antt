-- ===== src/Command/CreateSafe.antt =====
-- CreatePaymentHandler.Handle (create_payment.go) and its calls of CreateTransaction.
use payment_module.Command.Calls.{create_transaction}
use payment_module.Common.{refl, arith, List, ◌++◌, ◌∷◌, [], ◌≡◌}
use payment_module.Errors.{Error, Result, ok, err}
use payment_module.Domain.Method.{Method}
use payment_module.Domain.Types.{Time, Payment}
use payment_module.Ports.Gateway.{GatewayResponse, Gateway}
use payment_module.Command.World.{Env, GatewayCall, charged, World}
use payment_module.Command.Frame.{
  Leaves, sent_of, sent_rules, now-sent, Leaves-attempt, find_by_reference-sent,
}
use payment_module.Command.Sends.{Sends-after_yield, Sends, Adds, Sends-after, Sends-once}
use payment_module.Command.Create.{
  conclude, stored_charge, CreatePaymentCommand, build, require_unused, chargeable_gateway,
  charge_failed, answered, unknown_stored, warn_unless_saved, charge_unknown, charge_errored,
  charge_refused, handle, charge_request,
}

module _ (env : Env) where
  build-sent : (cmd : CreatePaymentCommand) → Leaves sent_of (build env cmd)
  unfolding build
  build-sent cmd = search sent_rules

  require_unused-sent :
      (cmd : CreatePaymentCommand) (r : Result Payment) → Leaves sent_of (require_unused env cmd r)
  unfolding require_unused
  require_unused-sent cmd (ok p) = search sent_rules
  require_unused-sent cmd (err e) = search sent_rules

  chargeable_gateway-sent :
      (cmd : CreatePaymentCommand) (m : Method) → Leaves sent_of (chargeable_gateway env cmd m)
  unfolding chargeable_gateway
  chargeable_gateway-sent cmd m = record { at = λ w. ground arith }

  unknown_stored-sent :
      (p : Payment) (e : Error) (r : Result Payment) → Leaves sent_of (unknown_stored env p e r)
  unfolding unknown_stored
  unknown_stored-sent p e (ok q) = search sent_rules
  unknown_stored-sent p e (err f) = search sent_rules

  warn_unless_saved-sent : (r : Result Payment) → Leaves sent_of (warn_unless_saved env r)
  unfolding warn_unless_saved
  warn_unless_saved-sent (ok q) = search sent_rules
  warn_unless_saved-sent (err f) = search sent_rules

  charge_failed-sent : (p : Payment) (e : Error) → Leaves sent_of (charge_failed env p e)
  unfolding charge_failed charge_unknown charge_refused
  charge_failed-sent p e = search (sent_rules, unknown_stored-sent, warn_unless_saved-sent) depth 8

  charge_errored-sent :
      (p : Payment) (started : Time) (e : Error) → Leaves sent_of (charge_errored env p started e)
  unfolding charge_errored
  charge_errored-sent p started e = search (sent_rules, charge_failed-sent) depth 8

  conclude-sent : (resp : GatewayResponse) (q : Payment) → Leaves sent_of (conclude env resp q)
  unfolding conclude stored_charge
  conclude-sent resp q = search sent_rules depth 10

  answered-sent :
      (p : Payment) (started : Time) (r : Result GatewayResponse)
      → Leaves sent_of (answered env p started r)
  unfolding answered
  answered-sent p started (err e) = search (sent_rules, charge_errored-sent)
  answered-sent p started (ok resp) = search (sent_rules, conclude-sent) depth 10

-- The requests sent after a creation: those sent before it, and at most the charge of one payment.
pub data Charges (env : Env) (cmd : CreatePaymentCommand) (before : List GatewayCall)
    : List GatewayCall → Type 0 where
  not_asked : Charges env cmd before before
  asked_once :
      (p : Payment) (v : World)
      → (build env cmd v).0 ≡ ok p
      → Charges env cmd before (before ++ charged (charge_request env cmd p) ∷ [])

module _ (env : Env) (cmd : CreatePaymentCommand) (before : List GatewayCall) where
  charge-Adds :
      (gw : Gateway) (p : Payment)
      → Adds
          (charged (charge_request env cmd p))
          (create_transaction env gw (charge_request env cmd p))
  unfolding create_transaction
  charge-Adds gw p = record { at = λ w. refl }

  created : Sends before (Charges env cmd before) (handle env cmd)
  unfolding handle
  created =
      Sends-after_yield not_asked (λ p. (v : World) × ((build env cmd v).0 ≡ ok p)) _ _
        (build-sent env cmd) (record { at = λ v p e. (v, e) })
        λ p b.
          Sends-after not_asked _ _
            (Leaves-attempt sent_of _
              (find_by_reference-sent env cmd.reference_id cmd.caller_service))
            λ existing. Sends-after not_asked _ _ (require_unused-sent env cmd existing) λ _.
              Sends-after not_asked _ _ (chargeable_gateway-sent env cmd p.payment_method_type)
                λ gw. Sends-after not_asked _ _ (now-sent env) λ started.
                  Sends-once (charged (charge_request env cmd p)) _ _ (asked_once p b.0 b.1)
                    (charge-Adds gw p) (answered-sent env p started)

-- Creating a payment sends the gateway nothing, or one charge: that of the payment that it built
-- from the command. This holds however the creation ends.
pub charge_once :
    (env : Env) (cmd : CreatePaymentCommand) (w : World)
    → Charges env cmd w.sent (handle env cmd w).1.sent
charge_once env cmd w = (created env cmd w.sent).at w refl
