-- ===== src/Domain/Status.antt =====
-- internal/domain/payment/status.go, and the RefundStatus of refund.go.
use payment_module.Common.{String, Bool, true, false}

pub data Status : Type 0 where
  initiated pending processing completed failed : Status
  cancelled expired partially_refunded refunded : Status

abbrev pub status_text : Status → String
status_text Status.initiated = "INITIATED"
status_text Status.pending = "PENDING"
status_text Status.processing = "PROCESSING"
status_text Status.completed = "COMPLETED"
status_text Status.failed = "FAILED"
status_text Status.cancelled = "CANCELLED"
status_text Status.expired = "EXPIRED"
status_text Status.partially_refunded = "PARTIALLY_REFUNDED"
status_text Status.refunded = "REFUNDED"

abbrev pub is_terminal : Status → Bool
is_terminal Status.completed = true
is_terminal Status.failed = true
is_terminal Status.cancelled = true
is_terminal Status.expired = true
is_terminal Status.partially_refunded = true
is_terminal Status.refunded = true
is_terminal _ = false

abbrev pub was_paid : Status → Bool
was_paid Status.completed = true
was_paid Status.partially_refunded = true
was_paid Status.refunded = true
was_paid _ = false

-- s == StatusX, for the statuses that guards compare with
abbrev pub is_initiated : Status → Bool
is_initiated Status.initiated = true
is_initiated _ = false

abbrev pub is_pending : Status → Bool
is_pending Status.pending = true
is_pending _ = false

abbrev pub is_processing : Status → Bool
is_processing Status.processing = true
is_processing _ = false

abbrev pub is_completed : Status → Bool
is_completed Status.completed = true
is_completed _ = false

abbrev pub is_partially_refunded : Status → Bool
is_partially_refunded Status.partially_refunded = true
is_partially_refunded _ = false

pub data RefundStatus : Type 0 where
  pending succeeded failed : RefundStatus

abbrev pub refund_status_text : RefundStatus → String
refund_status_text RefundStatus.pending = "PENDING"
refund_status_text RefundStatus.succeeded = "SUCCEEDED"
refund_status_text RefundStatus.failed = "FAILED"

abbrev pub refund_pending : RefundStatus → Bool
refund_pending RefundStatus.pending = true
refund_pending _ = false

abbrev pub refund_succeeded : RefundStatus → Bool
refund_succeeded RefundStatus.succeeded = true
refund_succeeded _ = false

abbrev pub refund_failed : RefundStatus → Bool
refund_failed RefundStatus.failed = true
refund_failed _ = false
