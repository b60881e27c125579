-- ===== src/Store/Rows.antt =====
-- The tables (migrations, postgres/db/models.go), with the conversions between rows and the domain of
-- postgres/payment_repo.go and postgres/helpers.go. A JSON column holds the value that it encodes.
use payment_module.Common.{ℕ, String, Option, none, some, List, [], is_empty, if◌then◌else◌}
use payment_module.Common.Int64.{Int64}
use payment_module.Common.Int32.{Int32}
use payment_module.Json.{Payload}
use payment_module.Domain.Status.{Status, RefundStatus}
use payment_module.Domain.Method.{method_text, method_of}
use payment_module.Domain.Types.{Time, Uuid, CustomerInfo, Refund, Payment, DomainEvent}

pub record PaymentRow : Type 0 where
  pub id : Uuid
  pub reference_id : String
  pub caller_service : String
  pub gateway_type : String
  pub gateway_transaction_id : Option String
  pub status : Status
  pub amount : Int64
  pub currency : String
  pub payment_method_type : Option String
  pub customer_info : CustomerInfo
  pub metadata : Payload
  pub gateway_request_payload : Payload
  pub gateway_response_payload : Payload
  pub description : Option String
  pub expired_at : Option Time
  pub paid_at : Option Time
  pub created_at : Time
  pub updated_at : Time
  pub deleted_at : Option Time
  pub version : ℕ

pub record RefundRow : Type 0 where
  pub id : Uuid
  pub payment_id : Uuid
  pub reference_id : String
  pub gateway_refund_id : Option String
  pub status : RefundStatus
  pub amount : Int64
  pub reason : Option String
  pub failure_reason : Option String
  pub requested_by : String
  pub created_at : Time
  pub updated_at : Time
  pub completed_at : Option Time
  pub deleted_at : Option Time

pub record EventRow : Type 0 where
  pub aggregate_id : Uuid
  pub event_type : String
  pub sequence_number : Int32
  pub payload : DomainEvent

pub data OutboxStatus : Type 0 where
  pending published failed : OutboxStatus

pub record OutboxRow : Type 0 where
  pub id : Uuid
  pub aggregate_id : Uuid
  pub event_type : String
  pub payload : DomainEvent
  pub status : OutboxStatus
  pub retry_count : ℕ
  pub last_error : Option String
  pub scheduled_at : Time
  pub published_at : Option Time
  pub created_at : Time

pub record Db : Type 0 where
  pub payments : List PaymentRow
  pub refunds : List RefundRow
  pub events : List EventRow
  pub outbox : List OutboxRow

abbrev pub to_nullable_string : String → Option String
to_nullable_string s = if is_empty s then none else some s

-- derefString, and the String field of a pgtype.Text
abbrev pub deref_string : Option String → String
deref_string none = ""
deref_string (some s) = s

-- A time column; `column_time` is what a TIMESTAMPTZ column keeps of a time, which has microseconds.
abbrev pub kept : (Time → Time) → Option Time → Option Time
kept column_time none = none
kept column_time (some t) = some (column_time t)

-- the parameters of InsertPayment as the columns hold them; `version` and `deleted_at` take the columns' defaults
unfoldable pub to_row : (column_time : Time → Time) → Payment → PaymentRow
to_row column_time p = record {
  id = p.id;
  reference_id = p.reference_id;
  caller_service = p.caller_service;
  gateway_type = p.gateway_type;
  gateway_transaction_id = to_nullable_string p.gateway_transaction_id;
  status = p.status;
  amount = p.amount.amount;
  currency = p.amount.currency;
  payment_method_type = to_nullable_string (method_text p.payment_method_type);
  customer_info = p.customer_info;
  metadata = p.metadata;
  gateway_request_payload = none;
  gateway_response_payload = p.gateway_response_payload;
  description = to_nullable_string p.description;
  expired_at = kept column_time p.expired_at;
  paid_at = kept column_time p.paid_at;
  created_at = column_time p.created_at;
  updated_at = column_time p.updated_at;
  deleted_at = none;
  version = 1;
}

-- toDomain; the refunds come from their own table
unfoldable pub to_domain : PaymentRow → Payment
unfolding method_of
to_domain row = record {
  id = row.id;
  reference_id = row.reference_id;
  caller_service = row.caller_service;
  gateway_type = row.gateway_type;
  gateway_transaction_id = deref_string row.gateway_transaction_id;
  status = row.status;
  amount = record { amount = row.amount; currency = row.currency };
  payment_method_type = method_of (deref_string row.payment_method_type);
  customer_info = row.customer_info;
  metadata = row.metadata;
  gateway_request_payload = row.gateway_request_payload;
  gateway_response_payload = row.gateway_response_payload;
  description = deref_string row.description;
  expired_at = row.expired_at;
  paid_at = row.paid_at;
  created_at = row.created_at;
  updated_at = row.updated_at;
  deleted_at = row.deleted_at;
  refunds = [];
  version = row.version;
  events = [];
}

unfoldable pub to_refund_params : (column_time : Time → Time) → Refund → RefundRow
to_refund_params column_time rf = record {
  id = rf.id;
  payment_id = rf.payment_id;
  reference_id = rf.reference_id;
  gateway_refund_id = to_nullable_string rf.gateway_refund_id;
  status = rf.status;
  amount = rf.amount;
  reason = to_nullable_string rf.reason;
  failure_reason = to_nullable_string rf.failure_reason;
  requested_by = rf.requested_by;
  created_at = column_time rf.created_at;
  updated_at = column_time rf.updated_at;
  completed_at = kept column_time rf.completed_at;
  deleted_at = none;
}

-- the literal in withRefunds
unfoldable pub to_refund : RefundRow → Refund
to_refund rr = record {
  id = rr.id;
  payment_id = rr.payment_id;
  reference_id = rr.reference_id;
  amount = rr.amount;
  reason = deref_string rr.reason;
  status = rr.status;
  gateway_refund_id = deref_string rr.gateway_refund_id;
  failure_reason = deref_string rr.failure_reason;
  requested_by = rr.requested_by;
  created_at = rr.created_at;
  updated_at = rr.updated_at;
  completed_at = rr.completed_at;
}
