-- ===== src/Midtrans/Calls.antt =====
-- CancelTransaction, GetTransaction and CreateRefund of midtrans/adapter.go.
use payment_module.Common.{
  ℕ, String, ◌<>◌, Bool, true, false, ◌||◌, Option, none, some, List, [], ◌==◌, str_eq, is_empty,
  if◌then◌else◌,
}
use payment_module.Common.Strings.{has_prefix}
use payment_module.Errors.{
  Error, Result, ok, err, wrapped, unknown_outcome, error_text, gateway_error,
}
use payment_module.Json.{Members, text, number, end, member, field}
use payment_module.Ports.Gateway.{
  TransactionRef, TransactionState, TransactionStatus, RefundRequest, RefundResult,
}
use payment_module.Midtrans.Host.{Config, Host, StatusResponse, RawRefundEntry, RefundEntry}
use payment_module.Midtrans.Status.{map_transaction_status, read_refunds, to_refund_notifications}
use payment_module.Midtrans.Transport.{
  Response, message, is_failed, is_server_error, unknown_if_server_error, call,
}

abbrev reply_text : String → Response → String
reply_text s res = s <> (res.code <> (" " <> message res))

unfoldable pub cancelled_with : Result Response → Option Error
cancelled_with (err e) = some (gateway_error "midtrans cancel failed" (some e))
cancelled_with (ok res) =
    if is_failed res
    then some
        (gateway_error (reply_text "midtrans cancel failed: " res) (unknown_if_server_error res))
    else none

abbrev unfound : Response → TransactionState
unfound res = record {
  found = false;
  gateway_transaction_id = "";
  status = TransactionStatus.unknown;
  gateway_status = "";
  refunds = [];
  raw_response = res.body;
}

-- res.code == "404" || res.httpStatus == http.StatusNotFound
unfoldable pub is_missing : Response → Bool
is_missing res = str_eq res.code "404" || res.http_status == 404

-- The switch of CreateRefund: whether the reply leaves the outcome open.
unfoldable pub is_open_outcome : Response → Bool
unfolding is_server_error
is_open_outcome res = is_server_error res || has_prefix res.code "2"

unfoldable pub refund_body : (print : String) → RefundRequest → Members
refund_body amount req =
    let body = member "refund_key" (text req.refund_key) (member "amount" (number amount) end) in
    if is_empty req.reason then body else member "reason" (text req.reason) body

unfoldable pub refund_path : RefundRequest → String
refund_path req = "/v2/" <> (req.gateway_transaction_id <> "/refund")

-- By transaction id when it is known, by the payment's otherwise.
unfoldable pub status_path : TransactionRef → String
status_path ref =
    let id =
      if is_empty ref.gateway_transaction_id then ref.payment_id else ref.gateway_transaction_id in
    "/v2/" <> (id <> "/status")

module _ (host : Host) (cfg : Config) where
  unfoldable pub cancel_transaction : ℕ → String → Option Error
  cancel_transaction t tx =
      cancelled_with (call host cfg t "POST" ("/v2/" <> (tx <> "/cancel")) none)

  unfoldable pub undecoded : Error → Result TransactionState
  undecoded e = err (
      gateway_error "decode midtrans status"
        (some (wrapped unknown_outcome (": " <> error_text e))))

  unfoldable pub known_state :
      Response → StatusResponse RawRefundEntry → List RefundEntry → TransactionState
  known_state res sr refunds = record {
    found = true;
    gateway_transaction_id = sr.transaction_id;
    status = map_transaction_status sr.transaction_status sr.fraud_status;
    gateway_status = sr.transaction_status;
    refunds = to_refund_notifications host refunds;
    raw_response = res.body;
  }

  -- A field that cannot be read makes json.Unmarshal return an error; its text is not modelled.
  unfoldable pub with_refunds :
      Response → StatusResponse RawRefundEntry → Option (List RefundEntry) → Result TransactionState
  unfolding undecoded known_state
  with_refunds res sr none = undecoded (Error.plain "invalid refund entry")
  with_refunds res sr (some refunds) = ok (known_state res sr refunds)

  unfoldable pub read_state :
      Response → Result (StatusResponse RawRefundEntry) → Result TransactionState
  unfolding with_refunds
  read_state res (err e) = undecoded e
  read_state res (ok sr) = with_refunds res sr (read_refunds host sr.refunds)

  unfoldable pub state_of : Result Response → Result TransactionState
  unfolding is_missing read_state
  state_of (err e) = err (gateway_error "midtrans status check failed" (some e))
  state_of (ok res) =
      if is_missing res
      then ok (unfound res)
      else if is_failed res
      then err (
          gateway_error (reply_text "midtrans status check failed: " res)
            (unknown_if_server_error res))
      else read_state res (host.decode_status res.raw)

  unfoldable pub get_transaction : ℕ → TransactionRef → Result TransactionState
  unfolding state_of
  get_transaction t ref =
      let id =
        if is_empty ref.gateway_transaction_id
        then ref.payment_id
        else ref.gateway_transaction_id in
      state_of (call host cfg t "GET" ("/v2/" <> (id <> "/status")) none)

  unfoldable pub refund_decision : RefundRequest → Result Response → Result RefundResult
  unfolding is_open_outcome
  refund_decision req (err e) = err (gateway_error "midtrans refund: no usable reply" (some e))
  refund_decision req (ok res) =
      if str_eq res.code "200"
      then ok (record {
        accepted = true;
        gateway_refund_id = host.sprint (field "refund_chargeback_id" res.body);
        decline_reason = "";
        raw_response = res.body;
      })
      else if str_eq res.code "406"
      then err (
          gateway_error ("midtrans reports duplicate refund_key " <> req.refund_key)
            (some unknown_outcome))
      else if is_open_outcome res
      then err (
          gateway_error (reply_text "midtrans refund outcome unknown: " res) (some unknown_outcome))
      else ok (record {
        accepted = false;
        gateway_refund_id = "";
        decline_reason = "midtrans " <> (res.code <> (": " <> message res));
        raw_response = res.body;
      })

  unfoldable pub create_refund : ℕ → RefundRequest → Result RefundResult
  unfolding refund_body refund_path refund_decision
  create_refund t req =
      refund_decision req
        (call host cfg t "POST" (refund_path req) (some (refund_body (host.print req.amount) req)))
