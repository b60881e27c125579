-- ===== src/Examples/Midtrans.antt =====
-- A Midtrans that answers each request with one reply, and requests to it.
use payment_module.Common.{ℕ, some, none, [], ◌∷◌, List, if◌then◌else◌, ◌==◌}
use payment_module.Common.Int.{pos}
use payment_module.Errors.{Result, ok, err, plain}
use payment_module.Json.{Payload, text, end, member}
use payment_module.Domain.Method.{Method}
use payment_module.Ports.Gateway.{CreateTransactionRequest, RefundRequest, TransactionRef}
use payment_module.Command.World.{Env}
use payment_module.Command.Callback.{ProcessCallbackCommand}
use payment_module.Midtrans.Host.{
  Config, Host, Notification, RawRefundEntry, Exchange, lost, replied,
}
use payment_module.Midtrans.Adapter.{new_adapter}
use payment_module.Examples.Gateways.{env}

abbrev pub config : Config
config = record {
  server_key = "key";
  base_url = "https://midtrans";
  timeout = pos 30;
  notification_url = "";
  qris_acquirer = "";
}

-- A webhook that says that payment `seven` is paid, without a signature.
abbrev pub unsigned : Notification RawRefundEntry
unsigned = record {
  transaction_id = "tx-1";
  order_id = "seven";
  status_code = "200";
  gross_amount = "100.00";
  signature_key = "";
  transaction_status = "settlement";
  fraud_status = "";
  refunds = [];
}

abbrev pub body_of : List ℕ → Result Payload
body_of [] = err (plain "unexpected end of JSON input")
body_of (b ∷ bs) = ok (some (member "status_code" (text (if b == 1 then "200" else "412")) end))

-- Every request gets the exchange `x`.
abbrev pub host_with : Exchange → Host
host_with x = record {
  sha512_hex = λ s. "digest";
  unquote = λ s. some s;
  decode_notification = λ bs. some unsigned;
  decode_status = λ bs. err (plain "not a status");
  decode_body = body_of;
  marshal = λ body. ok (0 ∷ []);
  new_request = λ method url. none;
  exchange = λ t req. x;
  itoa = λ n. "000";
  print = λ n. "100";
  parse_amount = λ s. some (pos 100);
  sprint = λ v. "";
  to_lower = λ s. s;
  minutes_until = λ now t. pos 10;
  format_wib = λ t. "now";
  parse_wib = λ s. none;
  basic_auth = λ user password. "Basic";
}

abbrev pub declining : Host
declining = host_with (replied 200 (2 ∷ []))

abbrev pub silent : Host
silent = host_with (lost "timeout")

abbrev pub refund_request : RefundRequest
refund_request = record {
  gateway_transaction_id = "tx-1";
  refund_key = "seven";
  amount = pos 40;
  reason = "";
}

abbrev pub charge_request : CreateTransactionRequest
charge_request = record {
  payment_id = "seven";
  reference_id = "order-1";
  amount = pos 100;
  currency = "IDR";
  payment_method = Method.qris;
  bank_code = "";
  card_token = "";
  return_url = "";
  customer_name = "Ani";
  customer_email = "";
  customer_phone = "";
  description = "";
  expired_at = none;
  metadata = none;
}

abbrev pub ref : TransactionRef
ref = record { payment_id = "seven"; gateway_transaction_id = "" }

abbrev pub midtrans_env : Env
midtrans_env = record env { factory = λ name. ok (new_adapter silent config (λ t. pos t)) }

abbrev pub webhook : ProcessCallbackCommand
webhook = record { gateway_type = "MIDTRANS"; raw_payload = []; headers = [] }
