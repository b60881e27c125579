-- ===== src/Domain/Lifecycle.antt =====
-- The life of a payment as a step relation over the operations of internal/domain/payment.
use payment_module.Common.{◌≡◌, String, none}
use payment_module.Common.Int64.{Int64}
use payment_module.Errors.{ok}
use payment_module.Domain.Aggregate.{
  mark_pending, mark_completed, mark_failed, mark_expired, cancel,
}
use payment_module.Domain.Refunds.{request_refund, complete_refund, fail_refund, find_refund}
use payment_module.Domain.Types.{Payment, Refund, Uuid, Time}
use payment_module.Json.{Payload}

-- One successful call of an operation. A new refund's UUID is one that the payment does not have.
pub data Step (p : Payment) : Payment → Type 0 where
  to_pending :
      {q : Payment} (now : Time) (tx : String) (resp : Payload)
      → mark_pending now tx resp p ≡ ok q
      → Step p q
  to_completed : {q : Payment} (now paid_at : Time) → mark_completed now paid_at p ≡ ok q → Step p q
  to_failed :
      {q : Payment} (now : Time) (code message : String)
      → mark_failed now code message p ≡ ok q
      → Step p q
  to_expired : {q : Payment} (now : Time) → mark_expired now p ≡ ok q → Step p q
  to_cancelled : {q : Payment} (now : Time) → cancel now p ≡ ok q → Step p q
  refund_opens :
      {q : Payment} (print : Int64 → String) (now : Time) (new_id : Uuid) (ref : String)
      (amount : Int64) (reason by : String) (r : Refund)
      → find_refund new_id p.refunds ≡ none
      → request_refund print now new_id ref amount reason by p ≡ ok (q, r)
      → Step p q
  refund_completes :
      {q : Payment} (show : Uuid → String) (now : Time) (id : Uuid) (gateway_id : String)
      → complete_refund show now id gateway_id p ≡ ok q
      → Step p q
  refund_fails :
      {q : Payment} (show : Uuid → String) (now : Time) (id : Uuid) (reason : String)
      → fail_refund show now id reason p ≡ ok q
      → Step p q

pub data Reach (p : Payment) : Payment → Type 0 where
  here : Reach p p
  next : {q r : Payment} → Reach p q → Step q r → Reach p r
