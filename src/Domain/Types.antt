-- ===== src/Domain/Types.antt =====
-- The data of internal/domain/payment: money.go, events.go, and the structs of refund.go and
-- aggregate.go. A time is a number of nanoseconds since an epoch; a UUID is its 128-bit number.
use payment_module.Common.{ℕ, String, ◌<>◌, Option, List, if◌then◌else◌, is_empty}
use payment_module.Common.Int.{ℤ, pos, leb_ℤ}
use payment_module.Common.Int64.{Int64}
use payment_module.Errors.{Result, ok, err, plain}
use payment_module.Json.{Payload}
use payment_module.Domain.Status.{Status, RefundStatus}
use payment_module.Domain.Method.{Method}

abbrev pub Time : Type 0
Time = ℤ

abbrev pub Uuid : Type 0
Uuid = ℕ

pub record Money : Type 0 where
  pub amount : Int64
  pub currency : String

-- `fmt.Errorf` prints the amount; `print` is that rendering.
unfoldable pub new_money : (Int64 → String) → Int64 → String → Result Money
new_money print amount currency =
    if leb_ℤ amount (pos 0)
    then err (plain ("amount must be positive, got " <> print amount))
    else if is_empty currency
    then err (plain "currency is required")
    else ok (record { amount = amount; currency = currency })

pub record CustomerInfo : Type 0 where
  pub external_id : String
  pub name : String
  pub email : String
  pub phone : String

pub record Refund : Type 0 where
  pub id : Uuid
  pub payment_id : Uuid
  pub reference_id : String
  pub amount : Int64
  pub reason : String
  pub status : RefundStatus
  pub gateway_refund_id : String
  pub failure_reason : String
  pub requested_by : String
  pub created_at : Time
  pub updated_at : Time
  pub completed_at : Option Time

-- The events of events.go; the first field of each is PaymentID and the last OccurredAt.
pub data DomainEvent : Type 0 where
  payment_initiated : Uuid → Time → DomainEvent
  payment_pending : Uuid → (gateway_tx_id : String) → Time → DomainEvent
  payment_completed : Uuid → (paid_at : Time) → Time → DomainEvent
  payment_failed : Uuid → (error_code error_message : String) → Time → DomainEvent
  payment_cancelled : Uuid → Time → DomainEvent
  payment_expired : Uuid → Time → DomainEvent
  refund_requested : Uuid → (refund_id : Uuid) → (amount : Int64) → Time → DomainEvent
  refund_completed :
      Uuid
      → (refund_id : Uuid) → (amount refunded_amount : Int64) → (payment_status : Status) → Time
      → DomainEvent
  refund_declined : Uuid → (refund_id : Uuid) → (reason : String) → Time → DomainEvent

abbrev pub event_type : DomainEvent → String
event_type (payment_initiated _ _) = "PaymentInitiated"
event_type (payment_pending _ _ _) = "PaymentPending"
event_type (payment_completed _ _ _) = "PaymentCompleted"
event_type (payment_failed _ _ _ _) = "PaymentFailed"
event_type (payment_cancelled _ _) = "PaymentCancelled"
event_type (payment_expired _ _) = "PaymentExpired"
event_type (refund_requested _ _ _ _) = "RefundRequested"
event_type (refund_completed _ _ _ _ _ _) = "RefundCompleted"
event_type (refund_declined _ _ _ _) = "RefundFailed"

abbrev pub aggregate_id : DomainEvent → Uuid
aggregate_id (payment_initiated id _) = id
aggregate_id (payment_pending id _ _) = id
aggregate_id (payment_completed id _ _) = id
aggregate_id (payment_failed id _ _ _) = id
aggregate_id (payment_cancelled id _) = id
aggregate_id (payment_expired id _) = id
aggregate_id (refund_requested id _ _ _) = id
aggregate_id (refund_completed id _ _ _ _ _) = id
aggregate_id (refund_declined id _ _ _) = id

pub record Payment : Type 0 where
  pub id : Uuid
  pub reference_id : String
  pub caller_service : String
  pub gateway_type : String
  pub gateway_transaction_id : String
  pub status : Status
  pub amount : Money
  pub payment_method_type : Method
  pub customer_info : CustomerInfo
  pub metadata : Payload
  pub gateway_request_payload : Payload
  pub gateway_response_payload : Payload
  pub description : String
  pub expired_at : Option Time
  pub paid_at : Option Time
  pub created_at : Time
  pub updated_at : Time
  pub deleted_at : Option Time
  pub refunds : List Refund
  pub version : ℕ
  pub events : List DomainEvent
