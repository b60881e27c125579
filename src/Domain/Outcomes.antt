-- ===== src/Domain/Outcomes.antt =====
-- The cases of CompleteRefund and FailRefund of internal/domain/payment/refund.go.
use payment_module.Common.{◌≡◌, ◌⊎◌, inl, inr, String, some, arith, Option-cases}
use payment_module.Errors.{ok}
use payment_module.Domain.Refunds.{
  complete_refund, fail_refund, find_refund, complete_found, fail_found, confirm, decline,
}
use payment_module.Domain.Types.{Payment, Refund, Uuid, Time}
use payment_module.Domain.Status.{RefundStatus}
use payment_module.Domain.RefundsValid.{RefundStatus-cases, find_refund_own}

-- `r` is the stored refund with its own ID, and it waits for the gateway's answer.
abbrev pub IsOpen : Payment → Refund → Type 0
IsOpen p r = (find_refund r.id p.refunds ≡ some r) × (r.status ≡ RefundStatus.pending)

module _ (show : Uuid → String) (now : Time) (id : Uuid) (text : String) (p q : Payment) where
  complete_found-cases :
      (r : Refund)
      → find_refund r.id p.refunds ≡ some r
      → complete_found now (show id) text (some r) p ≡ ok q
      → (q ≡ p) ⊎ ((r : Refund) × IsOpen p r × (q ≡ confirm now text r p))
  unfolding complete_found
  complete_found-cases r found e = elim (RefundStatus-cases r.status) [
    | inl s ↦ inr (r, (found, s), cc (rw s at e))
    | inr (inl s) ↦ inl (cc (rw s at e))
    | inr (inr s) ↦ cc (rw s at e)
  ]

  -- It found the refund settled already, or it confirmed a pending one.
  pub complete_refund-cases :
      complete_refund show now id text p ≡ ok q
      → (q ≡ p) ⊎ ((r : Refund) × IsOpen p r × (q ≡ confirm now text r p))
  unfolding complete_refund
  complete_refund-cases e = elim (Option-cases (find_refund id p.refunds)) [
    | inl missing ↦ cc (rw missing at e)
    | inr (r, found) ↦ complete_found-cases r (find_refund_own id p.refunds r found) (rw found at e)
  ]

  fail_found-cases :
      (r : Refund)
      → find_refund r.id p.refunds ≡ some r
      → fail_found now (show id) text (some r) p ≡ ok q
      → (r : Refund) × IsOpen p r × (q ≡ decline now text r p)
  unfolding fail_found
  fail_found-cases r found e = elim (RefundStatus-cases r.status) [
    | inl s ↦ (r, (found, s), ground (arith, s, e))
    | inr (inl s) ↦ ground (arith, s, e)
    | inr (inr s) ↦ ground (arith, s, e)
  ]

  pub fail_refund-cases :
      fail_refund show now id text p ≡ ok q → (r : Refund) × IsOpen p r × (q ≡ decline now text r p)
  unfolding fail_refund
  fail_refund-cases e = elim (Option-cases (find_refund id p.refunds)) [
    | inl missing ↦ cc (rw missing at e)
    | inr (r, found) ↦ fail_found-cases r (find_refund_own id p.refunds r found) (rw found at e)
  ]
