-- ===== src/Domain/Closed.antt =====
-- Payments in the statuses that internal/domain/payment does not leave again.
use payment_module.Common.{◌+◌, ◌≤◌, ◌≡◌, inl, inr, Bool, true, false, some, List, [], ◌∷◌, arith}
use payment_module.Common.Int.{pos_part}
use payment_module.Domain.Types.{Payment, Refund, Uuid}
use payment_module.Domain.Status.{Status, RefundStatus}
use payment_module.Domain.Refunds.{find_refund, request_refund}
use payment_module.Domain.Aggregate.{
  mark_pending, mark_completed, mark_failed, mark_expired, cancel,
}
use payment_module.Domain.Amounts.{
  confirmed, reserved, IsPositive, All-find_refund, confirmed-le-reserved,
}
use payment_module.Domain.Invariant.{IsValid}
use payment_module.Domain.Outcomes.{IsOpen, complete_refund-cases, fail_refund-cases}
use payment_module.Domain.Lifecycle.{
  Step, to_pending, to_completed, to_failed, to_expired, to_cancelled, refund_opens,
  refund_completes, refund_fails,
}

-- The statuses that docs/domain-model.md calls final.
abbrev pub is_final : Status → Bool
is_final Status.failed = true
is_final Status.cancelled = true
is_final Status.expired = true
is_final Status.refunded = true
is_final _ = false

-- A pending refund reserves more than what is confirmed.
open_reserves :
    (id : Uuid) (rs : List Refund) (r : Refund)
    → find_refund id rs ≡ some r
    → r.status ≡ RefundStatus.pending
    → confirmed rs + pos_part r.amount ≤ reserved rs
unfolding find_refund
open_reserves id [] r found open_now = cc
open_reserves id (q ∷ rs) r found open_now =
    ground (arith, open_reserves id rs r, confirmed-le-reserved rs)

pub not_open_when_final :
    (p : Payment) (r : Refund) → IsValid p → is_final p.status ≡ true → IsOpen p r → ⊥
unfolding find_refund
not_open_when_final p r v final (found, open_now) = ground (
  arith,
  v,
  open_reserves r.id p.refunds r found open_now,
  All-find_refund IsPositive r.id p.refunds r v.refunds_positive found,
)

-- A successful operation leaves a well-formed payment in a final status exactly as it was.
pub Step-final : {p q : Payment} → Step p q → IsValid p → is_final p.status ≡ true → q ≡ p
unfolding mark_pending mark_completed mark_failed mark_expired cancel request_refund
Step-final (to_pending now tx resp e) v final = ground arith
Step-final (to_completed now paid_at e) v final = ground arith
Step-final (to_failed now code message e) v final = ground arith
Step-final (to_expired now e) v final = ground arith
Step-final (to_cancelled now e) v final = ground arith
Step-final (refund_opens print now new_id ref amount reason by r fresh e) v final = ground arith
Step-final {p} {q} (refund_completes show now id gateway_id e) v final =
    elim (complete_refund-cases show now id gateway_id p q e) [
      | inl same ↦ same
      | inr (r, o, _) ↦ absurd (not_open_when_final p r v final o)
    ]
Step-final {p} {q} (refund_fails show now id reason e) v final =
    let (r, o, _) = fail_refund-cases show now id reason p q e in
    absurd (not_open_when_final p r v final o)
