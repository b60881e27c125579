-- ===== src/Midtrans/Signed.antt =====
-- ParseWebhook of midtrans/adapter.go: which webhooks it accepts.
use payment_module.Common.{
  ◌≡◌, ◌≢◌, refl, true, ℕ, String, Option, none, some, List, arith, eq_iff, Option-cases, Bool, ap,
  inl, sym, inr, ◌∙◌, if-either, is_empty,
}
use payment_module.Errors.{Error, Result, ok, err, is_code, Code, invalid_input}
use payment_module.Ports.Gateway.{WebhookNotification}
use payment_module.Midtrans.Host.{Config, Host, Notification, RawRefundEntry, RefundEntry}
use payment_module.Midtrans.Status.{map_transaction_status, read_refunds}
use payment_module.Midtrans.Webhook.{
  expected_signature, parse_webhook, check_notification, accept_notification, with_refunds, decoded,
}

-- The webhook is the one that `m` describes, whose signature is that of the server key.
pub record Signed (host : Host) (cfg : Config) (m : Notification RawRefundEntry)
    (n : WebhookNotification) : Type 0 where
  pub keyed : cfg.server_key ≢ ""
  pub signature : expected_signature host cfg m ≡ m.signature_key
  pub payment : n.payment_id ≡ m.order_id
  pub transaction : n.gateway_transaction_id ≡ m.transaction_id
  pub has_transaction : m.transaction_id ≢ ""
  pub status : n.status ≡ map_transaction_status m.transaction_status m.fraud_status

module _ (host : Host) (cfg : Config) (payload : List ℕ)
    (headers : List (String × List String)) where
  check_notification-Signed :
      (m : Notification RawRefundEntry) (rs : List RefundEntry) (n : WebhookNotification)
      → cfg.server_key ≢ ""
      → check_notification host cfg m rs ≡ ok n
      → Signed host cfg m n
  unfolding check_notification accept_notification
  check_notification-Signed m rs n keyed e = record {
    keyed = keyed;
    signature = ground (arith, eq_iff (expected_signature host cfg m) m.signature_key);
    payment = ground arith;
    transaction = ground arith;
    has_transaction = ground (arith, eq_iff m.transaction_id "");
    status = ground arith;
  }

  -- An accepted webhook decodes to a notification whose signature is that of the server key, which is
  -- not empty; it has that notification's payment, transaction and status, and names a transaction.
  pub parse_webhook-Signed :
      (n : WebhookNotification)
      → parse_webhook host cfg payload headers ≡ ok n
      → (m : Notification RawRefundEntry) × (host.decode_notification payload ≡ some m)
        × Signed host cfg m n
  unfolding parse_webhook
  parse_webhook-Signed n e = elim (Option-cases (host.decode_notification payload)) [
    | inl none_decoded ↦ ground arith
    | inr (m, decoded) ↦ (
      m,
      decoded,
      (elim (Option-cases (read_refunds host m.refunds)) [
        | inl unreadable ↦ ground arith
        | inr (rs, read) ↦
            check_notification-Signed m rs n (ground (arith, eq_iff cfg.server_key ""))
              (ground arith)
      ]),
    )
  ]

  -- An error is INVALID_INPUT.
  refuses : Result WebhookNotification → Bool
  refuses (ok n) = true
  refuses (err e) = is_code e Code.invalid_input

  refuses-check :
      (m : Notification RawRefundEntry) (rs : List RefundEntry)
      → refuses (check_notification host cfg m rs) ≡ true
  unfolding refuses check_notification
  refuses-check m rs = ground arith

  refuses-with_refunds :
      (m : Notification RawRefundEntry) (rs : Option (List RefundEntry))
      → refuses (with_refunds host cfg m rs) ≡ true
  unfolding refuses with_refunds
  refuses-with_refunds m none = refl
  refuses-with_refunds m (some rs) = refuses-check m rs

  refuses-decoded : (m : Option (Notification RawRefundEntry)) → refuses (decoded host cfg m) ≡ true
  unfolding refuses decoded
  refuses-decoded none = refl
  refuses-decoded (some m) = refuses-with_refunds m (read_refunds host m.refunds)

  refuses-parse : refuses (parse_webhook host cfg payload headers) ≡ true
  unfolding refuses parse_webhook
  refuses-parse =
      if-either (λ r. refuses r ≡ true) (is_empty cfg.server_key)
        (err (invalid_input "midtrans server key not configured; rejecting webhook"))
        (decoded host cfg (host.decode_notification payload)) (λ e. refl)
        λ e. refuses-decoded (host.decode_notification payload)

  pub parse_webhook-refuses :
      (e : Error)
      → parse_webhook host cfg payload headers ≡ err e
      → is_code e Code.invalid_input ≡ true
  unfolding refuses
  parse_webhook-refuses e h = ap refuses (sym h) ∙ refuses-parse
