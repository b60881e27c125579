-- ===== src/Midtrans/Webhook.antt =====
-- ParseWebhook of midtrans/adapter.go.
use payment_module.Common.{
  ℕ, String, ◌<>◌, Option, none, some, List, not, str_eq, is_empty, if◌then◌else◌,
}
use payment_module.Errors.{Result, ok, err, invalid_input}
use payment_module.Ports.Gateway.{WebhookNotification}
use payment_module.Midtrans.Host.{Config, Host, Notification, RawRefundEntry, RefundEntry}
use payment_module.Midtrans.Status.{map_transaction_status, read_refunds, to_refund_notifications}

module _ (host : Host) (cfg : Config) where
  -- SHA512(order_id + status_code + gross_amount + server_key), in hex.
  unfoldable pub expected_signature : Notification RawRefundEntry → String
  expected_signature n =
      host.sha512_hex (n.order_id <> (n.status_code <> (n.gross_amount <> cfg.server_key)))

  unfoldable pub accept_notification :
      Notification RawRefundEntry → List RefundEntry → WebhookNotification
  accept_notification n refunds = record {
    payment_id = n.order_id;
    gateway_transaction_id = n.transaction_id;
    status = map_transaction_status n.transaction_status n.fraud_status;
    gateway_status = n.transaction_status;
    refunds = to_refund_notifications host refunds;
  }

  unfoldable pub check_notification :
      Notification RawRefundEntry → List RefundEntry → Result WebhookNotification
  unfolding expected_signature accept_notification
  check_notification n refunds =
      if not (str_eq (expected_signature n) n.signature_key)
      then err (invalid_input "webhook signature mismatch")
      else if is_empty n.transaction_id
      then err (invalid_input "webhook missing transaction_id")
      else ok (accept_notification n refunds)

  unfoldable pub with_refunds :
      Notification RawRefundEntry → Option (List RefundEntry) → Result WebhookNotification
  with_refunds n none = err (invalid_input "invalid webhook payload")
  with_refunds n (some refunds) = check_notification n refunds

  unfoldable pub decoded : Option (Notification RawRefundEntry) → Result WebhookNotification
  unfolding with_refunds
  decoded none = err (invalid_input "invalid webhook payload")
  decoded (some n) = with_refunds n (read_refunds host n.refunds)

  unfoldable pub parse_webhook : List ℕ → List (String × List String) → Result WebhookNotification
  unfolding decoded
  parse_webhook payload headers =
      if is_empty cfg.server_key
      then err (invalid_input "midtrans server key not configured; rejecting webhook")
      else decoded (host.decode_notification payload)
