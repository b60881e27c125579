-- ===== src/Examples/MidtransRuns.antt =====
-- Runs of the Midtrans adapter.
use payment_module.Common.{
  ◌≡◌, refl, some, none, true, [], ◌∷◌, ◌++◌, arith, ap, Option, String, ◌∙◌, sym, is_empty,
}
use payment_module.Common.Int.{pos}
use payment_module.Errors.{Error, ok, err, is_code, Code}
use payment_module.Json.{Members}
use payment_module.Command.World.{warning}
use payment_module.Command.Callback.{handle}
use payment_module.Command.Create.{answered}
use payment_module.Midtrans.Host.{Config, Notification, RawRefundEntry}
use payment_module.Midtrans.Transport.{call, send, encode, read_reply}
use payment_module.Midtrans.Calls.{
  refund_path, refund_body, create_refund, status_path, get_transaction,
}
use payment_module.Midtrans.Charge.{build_charge_request, base_body, method_body, expiry_body}
use payment_module.Midtrans.Adapter.{create_transaction, charge_header}
use payment_module.Midtrans.Replies.{CanSend}
use payment_module.Midtrans.RefundOutcomes.{RefundTells, create_refund-Tells}
use payment_module.Midtrans.StatusOutcomes.{StatusTells, get_transaction-Tells}
use payment_module.Midtrans.ChargeBody.{BuildTells, build_charge_request-Tells}
use payment_module.Midtrans.ChargeOutcomes.{StoresAsItWas, charge_in_doubt}
use payment_module.Midtrans.Forged.{forged_webhook_changes_nothing, IsForged}
use payment_module.Midtrans.Webhook.{expected_signature}
use payment_module.Examples.Payments.{fresh}
use payment_module.Examples.Gateways.{env, nowhere}
use payment_module.Examples.Midtrans.{
  config, declining, silent, refund_request, charge_request, ref, midtrans_env, webhook,
}

abbrev signature_of : Notification RawRefundEntry → Option (Notification RawRefundEntry) → String
signature_of other none = other.signature_key
signature_of other (some m) = m.signature_key

can_refund :
    CanSend declining config "POST"
      (refund_path refund_request)
      (some (refund_body (declining.print refund_request.amount) refund_request))
unfolding encode
can_refund = record { content = some (0 ∷ []); encodes = refl; makes = refl }

create_refund-Tells_example :
    RefundTells
      (call declining config 0 "POST"
        (refund_path refund_request)
        (some (refund_body (declining.print refund_request.amount) refund_request)))
      (create_refund declining config 0 refund_request)
create_refund-Tells_example = create_refund-Tells declining config 0 refund_request can_refund

can_ask : CanSend declining config "GET" (status_path ref) none
unfolding encode
can_ask = record { content = none; encodes = refl; makes = refl }

get_transaction-Tells_example :
    StatusTells
      (call declining config 0 "GET" (status_path ref) none)
      (get_transaction declining config 0 ref)
get_transaction-Tells_example = get_transaction-Tells declining config 0 ref can_ask

build_charge_request-Tells_example :
    BuildTells silent charge_request (build_charge_request silent charge_request "gopay" (pos 0))
build_charge_request-Tells_example =
    build_charge_request-Tells silent charge_request "gopay" (pos 0)

abbrev charge_members : Members
charge_members = elim (build_charge_request silent charge_request "gopay" (pos 0)) [
  | ok body ↦ body
  | err e ↦ base_body silent charge_request
]

abbrev charge_config : Config
charge_config = record config { qris_acquirer = "gopay" }

can_charge : CanSend silent charge_config "POST" "/v2/charge" (some charge_members)
unfolding encode
can_charge = record { content = some (0 ∷ []); encodes = refl; makes = refl }

charge_in_doubt_example : StoresAsItWas env fresh nowhere (
    answered env fresh
      (pos 0)
      (create_transaction silent charge_config (λ t. pos t) 0 charge_request)
      nowhere)
unfolding build_charge_request method_body expiry_body send encode read_reply charge_header
charge_in_doubt_example =
    charge_in_doubt silent charge_config env (λ t. pos t) 0 charge_request charge_members fresh
      (pos 0) nowhere refl can_charge refl

unsigned-IsForged : IsForged silent config []
unfolding expected_signature
unsigned-IsForged m decoded signed =
    let clash : "digest" ≡ "" = signed ∙ sym (ap (signature_of m) decoded) in
    ground (arith, ap is_empty clash)

forged_webhook_changes_nothing_example :
    (e : Error) × (is_code e Code.invalid_input ≡ true)
    × (handle midtrans_env webhook nowhere
        ≡ (err e, record nowhere { log = nowhere.log ++ warning "webhook rejected" ∷ [] }))
forged_webhook_changes_nothing_example =
    forged_webhook_changes_nothing midtrans_env silent config (λ t. pos t) webhook nowhere refl
      unsigned-IsForged
