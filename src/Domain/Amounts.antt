-- ===== src/Domain/Amounts.antt =====
-- Sums over the refunds of a payment: the int64 loops of refund.go against exact sums.
use payment_module.Common.{
  ℕ, ◌+◌, ◌≤◌, ◌<◌, ◌≡◌, Bool, true, false, not, some, List, [], ◌∷◌, ◌++◌, arith, All, ◌==◌,
  if◌then◌else◌, Bool-cases, inl, inr, ◌∙◌, ap,
}
use mathlib.Core.Path.{subst}
use payment_module.Common.Int.{ℤ, pos, negsuc, pos_part, ◌≤ℤ◌}
use payment_module.Common.Int64.{add, half_modulus, add_exact}
use payment_module.Domain.Status.{RefundStatus, refund_succeeded, refund_failed}
use payment_module.Domain.Types.{Uuid, Refund}
use payment_module.Domain.Refunds.{sum_amounts, find_refund, put_refund}

abbrev pub IsPositive : Refund → Type 0
IsPositive r = pos 1 ≤ℤ r.amount

-- What one refund adds to a sum over the statuses that `counts` accepts.
abbrev pub weight : (RefundStatus → Bool) → Refund → ℕ
weight counts r = if counts r.status then pos_part r.amount else 0

abbrev pub total : (RefundStatus → Bool) → List Refund → ℕ
total counts [] = 0
total counts (r ∷ rs) = weight counts r + total counts rs

-- Pending and succeeded refunds reserve their amounts.
abbrev pub reserves : RefundStatus → Bool
reserves s = not (refund_failed s)

abbrev pub confirmed : List Refund → ℕ
confirmed = total refund_succeeded

abbrev pub reserved : List Refund → ℕ
reserved = total reserves

-- One round of the loop, for a positive amount and a sum in range.
sum_round :
    (counts : RefundStatus → Bool) (acc : ℕ) (r : Refund)
    → IsPositive r
    → acc + weight counts r < half_modulus
    → (if counts r.status then add (pos acc) r.amount else pos acc) ≡ pos (acc + weight counts r)
sum_round counts acc r h k = go (counts r.status) r.amount h k
  where
    go :
        (b : Bool) (a : ℤ)
        → pos 1 ≤ℤ a
        → acc + (if b then pos_part a else 0) < half_modulus
        → (if b then add (pos acc) a else pos acc) ≡ pos (acc + (if b then pos_part a else 0))
    go true (pos n) h k = add_exact acc n k
    go true (negsuc n) h k = absurd (omega arith)
    go false a h k = ground arith

-- The wrapping loop computes the exact sum, as long as that is an int64.
pub sum_amounts_exact :
    (counts : RefundStatus → Bool) (acc : ℕ) (rs : List Refund)
    → All IsPositive rs
    → acc + total counts rs < half_modulus
    → sum_amounts counts (pos acc) rs ≡ pos (acc + total counts rs)
unfolding sum_amounts
sum_amounts_exact counts acc [] h k = ground arith
sum_amounts_exact counts acc (r ∷ rs) h k =
    rw (sum_round counts acc r h.0 (omega arith))
      (sum_amounts_exact counts (acc + weight counts r) rs h.1 (omega arith) ∙ ap pos (omega arith))

pub total-append :
    (counts : RefundStatus → Bool) (rs qs : List Refund)
    → total counts (rs ++ qs) ≡ total counts rs + total counts qs
total-append counts [] qs = omega arith
total-append counts (r ∷ rs) qs = omega (arith, total-append counts rs qs)

pub confirmed-le-reserved : (rs : List Refund) → confirmed rs ≤ reserved rs
confirmed-le-reserved [] = omega arith
confirmed-le-reserved (r ∷ rs) = ground (arith, confirmed-le-reserved rs)

pub find_refund-id :
    (id : Uuid) (rs : List Refund) (r : Refund) → find_refund id rs ≡ some r → r.id ≡ id
unfolding find_refund
find_refund-id id [] r h = cc
find_refund-id id (q ∷ rs) r h = ground (arith, find_refund-id id rs r)

-- Replacing a refund moves a sum by the difference of the two weights.
pub total-put_refund :
    (counts : RefundStatus → Bool) (id : Uuid) (r' : Refund) (rs : List Refund) (r : Refund)
    → find_refund id rs ≡ some r
    → total counts (put_refund id r' rs) + weight counts r ≡ total counts rs + weight counts r'
unfolding find_refund put_refund
total-put_refund counts id r' [] r h = cc
total-put_refund counts id r' (q ∷ rs) r h = elim (Bool-cases (q.id == id)) [
  | inl s ↦ rw s (let e : q ≡ r = cc (rw s at h) in omega (arith, ap (weight counts) e))
  | inr s ↦ rw s (omega (arith, total-put_refund counts id r' rs r (rw s at h)))
]

module _ {ℓ} (P : Refund → Type ℓ) where
  pub All-put_refund :
      (id : Uuid) (r' : Refund) (rs : List Refund) → P r' → All P rs → All P (put_refund id r' rs)
  unfolding put_refund
  All-put_refund id r' [] p h = tt
  All-put_refund id r' (q ∷ rs) p (hq, h) = elim (Bool-cases (q.id == id)) [
    | inl e ↦ rw e (p, h)
    | inr e ↦ rw e (hq, All-put_refund id r' rs p h)
  ]

  pub All-find_refund :
      (id : Uuid) (rs : List Refund) (r : Refund) → All P rs → find_refund id rs ≡ some r → P r
  unfolding find_refund
  All-find_refund id [] r h e = cc
  All-find_refund id (q ∷ rs) r (hq, h) e = elim (Bool-cases (q.id == id)) [
    | inl s ↦ let q≡r : q ≡ r = cc (rw s at e) in subst P q≡r hq
    | inr s ↦ All-find_refund id rs r h (rw s at e)
  ]
