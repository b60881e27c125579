-- ===== src/Domain/Invariant.antt =====
-- The well-formedness of a payment, for the operations of internal/domain/payment/aggregate.go.
use payment_module.Common.{◌-◌, ◌≤◌, ◌<◌, ◌≡◌, refl, ◌∙◌, ap, String, false, [], arith, All, List}
use payment_module.Common.Int.{ℤ, pos, negsuc, pos_part, ◌≤ℤ◌}
use payment_module.Common.Int64.{half_modulus, sub, sub_exact, Int64}
use payment_module.Errors.{Result, ok, err}
use payment_module.Json.{Payload}
use payment_module.Domain.Status.{Status, was_paid, refund_succeeded}
use payment_module.Domain.Types.{Time, Payment, Refund}
use payment_module.Domain.Aggregate.{
  mark_pending, mark_completed, mark_failed, mark_expired, cancel,
}
use payment_module.Domain.Refunds.{refunded_amount, refundable_amount}
use payment_module.Domain.Amounts.{
  IsPositive, reserves, confirmed, reserved, sum_amounts_exact, confirmed-le-reserved,
}
use payment_module.Domain.Keys.{AreDistinct}

-- The money of a payment: its status `s`, its amount `a` and its refunds `rs` fit together.
pub record IsSound (s : Status) (a : Int64) (rs : List Refund) : Type 0 where
  pub amount_positive : pos 1 ≤ℤ a
  pub amount_int64 : pos_part a < half_modulus
  pub refunds_positive : All IsPositive rs
  pub refunds_distinct : AreDistinct rs
  pub within_amount : reserved rs ≤ pos_part a
  pub unpaid_clean : was_paid s ≡ false → rs ≡ []
  pub completed_none : s ≡ Status.completed → confirmed rs ≡ 0
  pub partial_some :
      s ≡ Status.partially_refunded → (0 < confirmed rs) × (confirmed rs < pos_part a)
  pub refunded_all : s ≡ Status.refunded → confirmed rs ≡ pos_part a

abbrev pub IsValid : Payment → Type 0
IsValid p = IsSound p.status p.amount.amount p.refunds

-- What an operation that returns (payment, error) leaves, when it succeeds.
abbrev pub Ensures : {A : Type 0} → (A → Type 0) → Result A → Type 0
Ensures P (ok a) = P a
Ensures P (err e) = Unit

refunded_amount_exact : (p : Payment) → IsValid p → refunded_amount p ≡ pos (confirmed p.refunds)
unfolding refunded_amount
refunded_amount_exact p v =
    sum_amounts_exact refund_succeeded 0 p.refunds v.refunds_positive
      (omega (arith, v, confirmed-le-reserved p.refunds))
    ∙ ap pos (omega arith)

pos_of_positive : (z : ℤ) → pos 1 ≤ℤ z → z ≡ pos (pos_part z)
pos_of_positive (pos n) h = refl
pos_of_positive (negsuc n) h = absurd (omega arith)

pub refundable_amount_exact :
    (p : Payment)
    → IsValid p
    → refundable_amount p ≡ pos (pos_part p.amount.amount - reserved p.refunds)
unfolding refundable_amount
refundable_amount_exact p v =
    ap (sub p.amount.amount) (
      sum_amounts_exact reserves 0 p.refunds v.refunds_positive (omega (arith, v))
      ∙ ap pos (omega arith))
    ∙ ap (λ (z : ℤ). sub z (pos (reserved p.refunds)))
        (pos_of_positive p.amount.amount v.amount_positive)
    ∙ sub_exact (pos_part p.amount.amount) (reserved p.refunds) v.within_amount v.amount_int64

-- For a well-formed payment, RefundedAmount is the sum of the succeeded refunds, and RefundableAmount is
-- the amount less the refunds that did not fail, without overflow and never below 0.
pub amounts_exact :
    (p : Payment)
    → IsValid p
    → (refunded_amount p ≡ pos (confirmed p.refunds))
      × (refundable_amount p ≡ pos (pos_part p.amount.amount - reserved p.refunds))
amounts_exact p v = (refunded_amount_exact p v, refundable_amount_exact p v)

module _ (p : Payment) (v : IsValid p) where
  pub mark_pending-IsValid :
      (now : Time) (tx : String) (resp : Payload) → Ensures IsValid (mark_pending now tx resp p)
  unfolding mark_pending
  mark_pending-IsValid now tx resp = ground (arith, v)

  pub mark_completed-IsValid : (now paid_at : Time) → Ensures IsValid (mark_completed now paid_at p)
  unfolding mark_completed
  mark_completed-IsValid now paid_at = ground (arith, v)

  pub mark_failed-IsValid :
      (now : Time) (code message : String) → Ensures IsValid (mark_failed now code message p)
  unfolding mark_failed
  mark_failed-IsValid now code message = ground (arith, v)

  pub mark_expired-IsValid : (now : Time) → Ensures IsValid (mark_expired now p)
  unfolding mark_expired
  mark_expired-IsValid now = ground (arith, v)

  pub cancel-IsValid : (now : Time) → Ensures IsValid (cancel now p)
  unfolding cancel
  cancel-IsValid now = ground (arith, v)
