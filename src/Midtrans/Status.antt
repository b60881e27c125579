-- ===== src/Midtrans/Status.antt =====
-- flexString, toRefundNotifications and mapTransactionStatus of midtrans/adapter.go.
use payment_module.Common.{
  String, Option, none, some, List, [], ◌∷◌, ◌||◌, str_eq, if◌then◌else◌, map,
}
use payment_module.Common.Int.{pos}
use payment_module.Common.Int64.{Int64}
use payment_module.Common.Strings.{has_prefix}
use payment_module.Ports.Gateway.{TransactionStatus, RefundNotification}
use payment_module.Midtrans.Host.{Host, RawRefundEntry, RefundEntry}

unfoldable pub map_transaction_status : (status fraud_status : String) → TransactionStatus
map_transaction_status status fraud_status =
    if str_eq status "settlement"
    then TransactionStatus.settled
    else if str_eq status "capture"
    then (if str_eq fraud_status "" || str_eq fraud_status "accept"
        then TransactionStatus.settled
        else TransactionStatus.pending)
    else if str_eq status "pending" || str_eq status "authorize"
    then TransactionStatus.pending
    else if str_eq status "deny"
        || str_eq status "cancel"
        || str_eq status "expire"
        || str_eq status "failure"
    then TransactionStatus.failed
    else TransactionStatus.unknown

module _ (host : Host) where
  -- UnmarshalJSON of a flexString that holds the text `f`: none for an error.
  unfoldable pub flex_string : (raw f : String) → Option String
  flex_string raw f =
      if str_eq raw "null"
      then some f
      else if has_prefix raw "\""
      then host.unquote raw
      else some raw

  -- A field that is absent stays empty.
  abbrev flex_field : Option String → Option String
  flex_field none = some ""
  flex_field (some raw) = flex_string raw ""

  abbrev read_fields : RawRefundEntry → Option String → Option String → Option RefundEntry
  read_fields r (some id) (some amount) =
      some (record { refund_chargeback_id = id; refund_amount = amount; refund_key = r.refund_key })
  read_fields r _ _ = none

  abbrev and_entry : Option RefundEntry → Option (List RefundEntry) → Option (List RefundEntry)
  and_entry (some r) (some rs) = some (r ∷ rs)
  and_entry _ _ = none

  -- The refunds of a decoded struct: none when one of their fields cannot be read.
  unfoldable pub read_refunds : List RawRefundEntry → Option (List RefundEntry)
  unfolding flex_string
  read_refunds [] = some []
  read_refunds (r ∷ rs) =
      and_entry (read_fields r (flex_field r.refund_chargeback_id) (flex_field r.refund_amount))
        (read_refunds rs)

  abbrev or_zero : Option Int64 → Int64
  or_zero none = pos 0
  or_zero (some v) = v

  unfoldable pub amount_of : String → Int64
  amount_of f = or_zero (host.parse_amount f)

  unfoldable pub to_refund_notifications : List RefundEntry → List RefundNotification
  unfolding amount_of
  to_refund_notifications entries =
      map
        (λ r. record {
          refund_key = r.refund_key;
          gateway_refund_id = r.refund_chargeback_id;
          amount = amount_of r.refund_amount;
        })
        entries
