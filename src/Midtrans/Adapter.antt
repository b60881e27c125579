-- ===== src/Midtrans/Adapter.antt =====
-- CreateTransaction of midtrans/charge.go, NewAdapter of midtrans/adapter.go, and the factory of
-- gateway/factory.go.
use payment_module.Common.{
  ℕ, String, ◌<>◌, none, some, List, [], ◌∷◌, str_eq, is_empty, if◌then◌else◌,
}
use payment_module.Errors.{Result, ok, err, invalid_input, gateway_error, plain}
use payment_module.Json.{Members, field, text_field}
use payment_module.Domain.Types.{Time}
use payment_module.Ports.Gateway.{Gateway, CreateTransactionRequest, GatewayResponse}
use payment_module.Midtrans.Host.{Config, Host}
use payment_module.Midtrans.Status.{map_transaction_status}
use payment_module.Midtrans.Transport.{Response, message, is_failed, unknown_if_server_error, send}
use payment_module.Midtrans.Charge.{capability, build_charge_request}
use payment_module.Midtrans.NextStep.{next_action}
use payment_module.Midtrans.Webhook.{parse_webhook}
use payment_module.Midtrans.Calls.{cancel_transaction, get_transaction, create_refund}

unfoldable pub charge_header : Config → List (String × List String)
charge_header cfg =
    if is_empty cfg.notification_url
    then []
    else ("X-Override-Notification", cfg.notification_url ∷ []) ∷ []

unfoldable pub with_default_acquirer : Config → Config
with_default_acquirer cfg =
    if is_empty cfg.qris_acquirer then record cfg { qris_acquirer = "gopay" } else cfg

module _ (host : Host) where
  abbrev created : CreateTransactionRequest → Response → (tx_id : String) → Result GatewayResponse
  created req res tx_id =
      if is_empty tx_id
      then err (gateway_error "missing transaction_id in midtrans response" none)
      else let status =
          map_transaction_status (text_field "transaction_status" res.body)
            (text_field "fraud_status" res.body) in
        ok (record {
          gateway_transaction_id = tx_id;
          status = status;
          next_action = next_action host req.payment_method status res.body;
          raw_response = res.body;
        })

  -- What CreateTransaction makes of the reply.
  unfoldable pub charge_answer : CreateTransactionRequest → Result Response → Result GatewayResponse
  charge_answer req (err e) = err (gateway_error "midtrans charge failed" (some e))
  charge_answer req (ok res) =
      if str_eq res.code "400"
      then err (
          invalid_input (
            "midtrans rejected the charge: "
            <> (message res <> (" " <> host.sprint (field "validation_messages" res.body)))))
      else if is_failed res
      then err (
          gateway_error ("midtrans charge failed: " <> (res.code <> (" " <> message res)))
            (unknown_if_server_error res))
      else created req res (text_field "transaction_id" res.body)

  unfoldable pub charge_built :
      Config → ℕ → CreateTransactionRequest → Result Members → Result GatewayResponse
  unfolding charge_header charge_answer
  charge_built cfg t req (err e) = err e
  charge_built cfg t req (ok body) =
      charge_answer req (send host cfg t "POST" "/v2/charge" (some body) (charge_header cfg))

  -- `clock` is time.Now at the call's place in the run.
  unfoldable pub create_transaction :
      Config → (clock : ℕ → Time) → ℕ → CreateTransactionRequest → Result GatewayResponse
  unfolding charge_built
  create_transaction cfg clock t req =
      charge_built cfg t req (build_charge_request host req cfg.qris_acquirer (clock t))

  unfoldable pub new_adapter : Config → (clock : ℕ → Time) → Gateway
  unfolding with_default_acquirer create_transaction
  new_adapter given clock =
      let cfg = with_default_acquirer given in
      record {
        capability = capability;
        create_transaction = create_transaction cfg clock;
        get_transaction = get_transaction host cfg;
        cancel_transaction = cancel_transaction host cfg;
        create_refund = create_refund host cfg;
        parse_webhook = parse_webhook host cfg;
      }

-- Get of the factory, over the map that it was made from.
unfoldable pub get_gateway : List (String × Gateway) → String → Result Gateway
get_gateway [] gateway_type = err (plain ("unsupported gateway: " <> gateway_type))
get_gateway ((name, gw) ∷ adapters) gateway_type =
    if str_eq name gateway_type then ok gw else get_gateway adapters gateway_type
