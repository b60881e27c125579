-- ===== src/Midtrans/ChargeBody.antt =====
-- buildChargeRequest of midtrans/charge.go: what a request carries, and which payments get one.
use payment_module.Common.{◌≡◌, refl, true, String, Option, none, some, if-either, not, is_empty}
use payment_module.Common.Int.{ℤ, ltb_ℤ, pos}
use payment_module.Errors.{Result, ok, err, is_code, Code, ◌>>=◌}
use payment_module.Json.{Members, text, number, object, end, member, lookup}
use payment_module.Domain.Types.{Time}
use payment_module.Domain.Method.{Method}
use payment_module.Ports.Gateway.{CreateTransactionRequest}
use payment_module.Midtrans.Host.{Host}
use payment_module.Midtrans.Charge.{
  capability, base_body, method_body, expiring, expiry_body, build_charge_request, is_card,
  is_va_bank,
}

-- Midtrans's name of a method.
abbrev payment_type : Method → String
payment_type Method.virtual_account = "bank_transfer"
payment_type Method.qris = "qris"
payment_type Method.gopay = "gopay"
payment_type Method.shopeepay = "shopeepay"
payment_type Method.card = "credit_card"
payment_type (Method.other s) = s

-- The body charges the payment of the request, by a method that can be charged.
pub record Bills (host : Host) (req : CreateTransactionRequest) (body : Members) : Type 0 where
  pub chargeable : (capability req.payment_method).charge ≡ true
  pub order :
      lookup "transaction_details" body
      ≡ some (
          object (
            member "order_id"
              (text req.payment_id)
              (member "gross_amount" (number (host.print req.amount)) end)))
  pub type : lookup "payment_type" body ≡ some (text (payment_type req.payment_method))

abbrev pub BuildTells : Host → CreateTransactionRequest → Result Members → Type 0
BuildTells host req (ok body) = Bills host req body
BuildTells host req (err e) = is_code e Code.invalid_input ≡ true

module _ (host : Host) (req : CreateTransactionRequest) where
  Billing : Method → Result Members → Type 0
  Billing m (ok body) =
      ((capability m).charge ≡ true)
      × (lookup "transaction_details" body
          ≡ some (
              object (
                member "order_id" (text req.payment_id)
                  (member "gross_amount" (number (host.print req.amount)) end))))
      × (lookup "payment_type" body ≡ some (text (payment_type m)))
  Billing m (err e) = is_code e Code.invalid_input ≡ true

  method_body-Bills :
      (m : Method) (acquirer : String)
      → Billing m (method_body host req acquirer m (base_body host req))
  unfolding Billing method_body base_body lookup capability
  method_body-Bills Method.virtual_account acquirer =
      if-either (Billing Method.virtual_account) (not (is_va_bank (host.to_lower req.bank_code))) _
        _ (λ e. refl) λ e. (refl, refl, refl)
  method_body-Bills Method.qris acquirer = (refl, refl, refl)
  method_body-Bills Method.gopay acquirer =
      if-either (Billing Method.gopay) (is_empty req.return_url) _ _ (λ e. (refl, refl, refl))
        λ e. (refl, refl, refl)
  method_body-Bills Method.shopeepay acquirer =
      if-either (Billing Method.shopeepay) (is_empty req.return_url) _ _ (λ e. refl)
        λ e. (refl, refl, refl)
  method_body-Bills Method.card acquirer =
      if-either (Billing Method.card) (is_empty req.card_token) _ _ (λ e. refl)
        λ e. (refl, refl, refl)
  method_body-Bills (Method.other s) acquirer = refl

  expiring-Bills :
      (m : Method) (now : Time) (minutes : ℤ) (body : Members)
      → Billing m (ok body)
      → Billing m (expiring host now minutes body)
  unfolding Billing expiring lookup
  expiring-Bills m now minutes body h =
      if-either (Billing m) (ltb_ℤ minutes (pos 1)) _ _ (λ e. refl) λ e. h

  expiry_body-Bills :
      (o : Option Time) (m : Method) (now : Time) (body : Members)
      → Billing m (ok body)
      → Billing m (expiry_body host o m now body)
  unfolding expiry_body
  expiry_body-Bills none m now body h = h
  expiry_body-Bills (some t) m now body h =
      if-either (Billing m) (is_card m) (ok body)
        (expiring host now (host.minutes_until now t) body) (λ e. h)
        λ e. expiring-Bills m now (host.minutes_until now t) body h

  expire-Bills :
      (m : Method) (now : Time) (r : Result Members)
      → Billing m r
      → Billing m (r >>= λ body. expiry_body host req.expired_at m now body)
  unfolding Billing
  expire-Bills m now (ok body) h = expiry_body-Bills req.expired_at m now body h
  expire-Bills m now (err e) h = h

  tells : (r : Result Members) → Billing req.payment_method r → BuildTells host req r
  unfolding Billing
  tells (ok body) h = record { chargeable = h.0; order = h.1; type = h.2 }
  tells (err e) h = h

  -- A charge request is built only for a method that Midtrans charges; it then names the payment by its
  -- id, asks for its amount, and has Midtrans's name of its method. Where none is built, the error is
  -- INVALID_INPUT.
  pub build_charge_request-Tells :
      (acquirer : String) (now : Time)
      → BuildTells host req (build_charge_request host req acquirer now)
  unfolding build_charge_request
  build_charge_request-Tells acquirer now = tells (build_charge_request host req acquirer now) (
      expire-Bills req.payment_method now
        (method_body host req acquirer req.payment_method (base_body host req))
        (method_body-Bills req.payment_method acquirer))
