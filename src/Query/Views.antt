-- ===== src/Query/Views.antt =====
-- get_payment.go, get_payment_by_ref.go and list_refunds.go of internal/application/query, and ttl.go of
-- internal/adapter/outbound/redis.
use payment_module.Common.{
  ℕ, ◌*◌, String, ◌<>◌, Bool, not, ◌&&◌, Option, none, some, str_eq, is_empty, if◌then◌else◌,
}
use payment_module.Common.Int.{ℤ, pos}
use payment_module.Common.Int64.{Int64}
use payment_module.Errors.{Result, ok, err, not_found, invalid_input}
use payment_module.Json.{Members, Payload, text, end, member}
use payment_module.Domain.Status.{Status, status_text}
use payment_module.Domain.Method.{method_text}
use payment_module.Domain.Types.{Time, Uuid, CustomerInfo, Payment}
use payment_module.Ports.Cache.{payment_cache_key, reference_cache_key}

pub record PaymentDto : Type 0 where
  pub id : String
  pub reference_id : String
  pub caller_service : String
  pub status : String
  pub gateway_type : String
  pub gateway_transaction_id : String
  pub amount : Int64
  pub currency : String
  pub payment_method_type : String
  pub customer_info : Members
  pub metadata : Payload
  pub description : String
  pub expired_at : Option Time
  pub paid_at : Option Time
  pub created_at : Time
  pub updated_at : Time

abbrev customer_map : CustomerInfo → Members
customer_map c = member "external_id" (text c.external_id) (
    member "name" (text c.name) (member "email" (text c.email) (member "phone" (text c.phone) end)))

unfoldable pub to_dto : (show : Uuid → String) → Payment → PaymentDto
to_dto show p = record {
  id = show p.id;
  reference_id = p.reference_id;
  caller_service = p.caller_service;
  status = status_text p.status;
  gateway_type = p.gateway_type;
  gateway_transaction_id = p.gateway_transaction_id;
  amount = p.amount.amount;
  currency = p.amount.currency;
  payment_method_type = method_text p.payment_method_type;
  customer_info = customer_map p.customer_info;
  metadata = p.metadata;
  description = p.description;
  expired_at = p.expired_at;
  paid_at = p.paid_at;
  created_at = p.created_at;
  updated_at = p.updated_at;
}

abbrev seconds : ℕ → ℤ
seconds n = pos (n * 1000000000)

-- TTLForStatus
unfoldable pub ttl_for_status : Status → ℤ
ttl_for_status Status.initiated = seconds 30
ttl_for_status Status.pending = seconds 60
ttl_for_status Status.processing = seconds 30
ttl_for_status _ = seconds 3600

-- What the queries read: a CachePort over the state of its server, the JSON of a view, and the
-- repository's lookups.
pub record Reads (C : Type 0) : Type 0 where
  pub get : String → C → Result String
  pub set : (key value : String) → (ttl : ℤ) → C → C
  pub marshal : PaymentDto → Option String
  pub unmarshal : String → Option PaymentDto
  pub find_by_id : Uuid → Result Payment
  pub find_by_reference : (reference_id caller : String) → Result Payment
  pub show : Uuid → String

module _ {C : Type 0} (reads : Reads C) where
  -- The cached view, if there is one that can be read.
  unfoldable pub cached : Result String → Option PaymentDto
  cached (err e) = none
  cached (ok raw) = reads.unmarshal raw

  set_view : String → ℤ → Option String → C → C
  set_view key ttl none c = c
  set_view key ttl (some raw) c = reads.set key raw ttl c

  -- The view of a payment that was found, which is cached for a while.
  unfoldable pub fill : String → Result Payment → C → Result PaymentDto × C
  unfolding set_view to_dto ttl_for_status
  fill key (err e) c = (err e, c)
  fill key (ok p) c =
      let dto = to_dto reads.show p in
      (ok dto, set_view key (ttl_for_status p.status) (reads.marshal dto) c)

  unfoldable pub or_fill : String → Result Payment → C → Option PaymentDto → Result PaymentDto × C
  unfolding fill
  or_fill key found c (some dto) = (ok dto, c)
  or_fill key found c none = fill key found c

  unfoldable pub load : Uuid → C → Result PaymentDto × C
  unfolding cached or_fill
  load id c =
      let key = payment_cache_key (reads.show id) in
      or_fill key (reads.find_by_id id) c (cached (reads.get key c))

  unfoldable pub check_reader :
      Uuid → (caller : String) → (admin : Bool) → Result PaymentDto → Result PaymentDto
  check_reader id caller admin (err e) = err e
  check_reader id caller admin (ok dto) =
      if not admin && not (str_eq dto.caller_service caller)
      then err (not_found ("payment not found: " <> reads.show id))
      else ok dto

  -- GetPaymentHandler.Handle
  unfoldable pub get_payment : Uuid → (caller : String) → (admin : Bool) → C → Result PaymentDto × C
  unfolding load check_reader
  get_payment id caller admin c = let (r, c') = load id c in (check_reader id caller admin r, c')

  -- GetByRefHandler.Handle
  unfoldable pub get_by_ref : (reference_id caller : String) → C → Result PaymentDto × C
  unfolding cached or_fill
  get_by_ref reference_id caller c =
      if is_empty reference_id
      then (err (invalid_input "reference_id is required"), c)
      else if is_empty caller
      then (err (invalid_input "caller_service is required"), c)
      else let key = reference_cache_key caller reference_id in
        or_fill key (reads.find_by_reference reference_id caller) c (cached (reads.get key c))

  owned : Uuid → (caller : String) → Result Payment → Result Payment
  owned id caller (err e) = err e
  owned id caller (ok p) =
      if not (str_eq p.caller_service caller)
      then err (not_found ("payment not found: " <> reads.show id))
      else ok p

  -- ListRefundsHandler.Handle
  unfoldable pub list_refunds : Uuid → (caller : String) → Result Payment
  unfolding owned
  list_refunds id caller = owned id caller (reads.find_by_id id)
