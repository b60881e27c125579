-- ===== src/Midtrans/Charge.antt =====
-- The capabilities and buildChargeRequest of midtrans/charge.go.
use payment_module.Common.{
  String, ◌<>◌, Bool, true, false, not, ◌||◌, Option, none, some, str_eq, is_empty, if◌then◌else◌,
}
use payment_module.Common.Int.{ℤ, pos, ltb_ℤ}
use payment_module.Errors.{Result, ok, err, invalid_input, ◌>>=◌}
use payment_module.Json.{Json, Members, text, number, boolean, object, end, member}
use payment_module.Domain.Types.{Time}
use payment_module.Domain.Method.{Method}
use payment_module.Ports.Gateway.{MethodCapability, CreateTransactionRequest}
use payment_module.Midtrans.Host.{Host}

abbrev can : (charge refund partial_refund : Bool) → MethodCapability
can c r p = record { charge = c; refund = r; partial_refund = p }

-- The zero value for a method that the map does not name.
unfoldable pub capability : Method → MethodCapability
capability Method.virtual_account = can true false false
capability Method.qris = can true true true
capability Method.gopay = can true true true
capability Method.shopeepay = can true true false
capability Method.card = can true true true
capability (Method.other s) = can false false false

unfoldable pub is_va_bank : String → Bool
is_va_bank bank =
    str_eq bank "bca"
    || str_eq bank "bni"
    || str_eq bank "bri"
    || str_eq bank "permata"
    || str_eq bank "cimb"

-- body[k] = v
abbrev put : String → Json → Members → Members
put k v body = member k v body

abbrev pub is_card : Method → Bool
is_card Method.card = true
is_card _ = false

module _ (host : Host) where
  unfoldable pub base_body : CreateTransactionRequest → Members
  base_body req =
      put "transaction_details"
        (object (
          put "order_id" (text req.payment_id)
            (put "gross_amount" (number (host.print req.amount)) end)))
        (put "custom_field1" (text req.reference_id) (
          put "customer_details"
            (object (
              put "first_name" (text req.customer_name) (
                put "email" (text req.customer_email) (put "phone" (text req.customer_phone) end))))
            end))

  -- payment_type, with the object of that name.
  abbrev typed : String → Json → Members → Members
  typed name v body = put name v (put "payment_type" (text name) body)

  unfoldable pub method_body :
      CreateTransactionRequest → (qris_acquirer : String) → Method → Members → Result Members
  unfolding is_va_bank
  method_body req qris_acquirer Method.virtual_account body =
      let bank = host.to_lower req.bank_code in
      if not (is_va_bank bank)
      then err (
          invalid_input "bank_code must be one of BCA, BNI, BRI, PERMATA, CIMB for VIRTUAL_ACCOUNT")
      else ok (typed "bank_transfer" (object (put "bank" (text bank) end)) body)
  method_body req qris_acquirer Method.qris body =
      ok (typed "qris" (object (put "acquirer" (text qris_acquirer) end)) body)
  method_body req qris_acquirer Method.gopay body =
      if is_empty req.return_url
      then ok (put "payment_type" (text "gopay") body)
      else ok (
          typed "gopay"
            (object
              (put "enable_callback" (boolean true) (put "callback_url" (text req.return_url) end)))
            body)
  method_body req qris_acquirer Method.shopeepay body =
      if is_empty req.return_url
      then err (invalid_input "return_url is required for SHOPEEPAY")
      else ok (typed "shopeepay" (object (put "callback_url" (text req.return_url) end)) body)
  method_body req qris_acquirer Method.card body =
      if is_empty req.card_token
      then err (
          invalid_input "card_token is required for CARD; tokenize the card with Midtrans.js first")
      else ok (
          typed "credit_card"
            (object
              (put "token_id" (text req.card_token) (put "authentication" (boolean true) end)))
            body)
  method_body req qris_acquirer (Method.other s) body =
      err (invalid_input ("MIDTRANS does not support payment_method_type " <> s))

  unfoldable pub expiring : Time → (minutes : ℤ) → Members → Result Members
  expiring now minutes body =
      if ltb_ℤ minutes (pos 1)
      then err (invalid_input "expired_at must be at least one minute in the future")
      else ok (
          put "custom_expiry"
            (object (
              put "order_time" (text (host.format_wib now)) (
                put "expiry_duration" (number (host.print minutes))
                  (put "unit" (text "minute") end))))
            body)

  unfoldable pub expiry_body : Option Time → Method → Time → Members → Result Members
  unfolding expiring
  expiry_body none m now body = ok body
  expiry_body (some t) m now body =
      if is_card m then ok body else expiring now (host.minutes_until now t) body

  unfoldable pub build_charge_request :
      CreateTransactionRequest → (qris_acquirer : String) → (now : Time) → Result Members
  unfolding base_body
  build_charge_request req qris_acquirer now = do
    body ← method_body req qris_acquirer req.payment_method (base_body req)
    expiry_body req.expired_at req.payment_method now body
