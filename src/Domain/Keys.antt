-- ===== src/Domain/Keys.antt =====
-- The keys of the refunds of a payment: their ID and the caller's reference (refund.go).
use payment_module.Common.{
  String, ◌≡◌, refl, none, some, List, [], ◌∷◌, ◌++◌, arith, ◌==◌, str_eq, eq_iff, if◌then◌else◌,
  false,
}
use payment_module.Domain.Types.{Uuid, Refund}
use payment_module.Domain.Refunds.{find_refund, find_reference, put_refund}

-- No two refunds share an ID or a reference.
abbrev pub AreDistinct : List Refund → Type 0
AreDistinct [] = Unit
AreDistinct (r ∷ rs) =
    (find_refund r.id rs ≡ none) × (find_reference r.reference_id rs ≡ none) × AreDistinct rs

find_refund-put_none :
    (j id : Uuid) (r' : Refund) (rs : List Refund)
    → r'.id ≡ id
    → find_refund j rs ≡ none
    → find_refund j (put_refund id r' rs) ≡ none
unfolding find_refund put_refund
find_refund-put_none j id r' [] e h = refl
find_refund-put_none j id r' (q ∷ rs) e h = ground (arith, find_refund-put_none j id r' rs)

find_reference-put_none :
    (ref : String) (id : Uuid) (r r' : Refund) (rs : List Refund)
    → r'.reference_id ≡ r.reference_id
    → find_refund id rs ≡ some r
    → find_reference ref rs ≡ none
    → find_reference ref (put_refund id r' rs) ≡ none
unfolding find_refund find_reference put_refund
find_reference-put_none ref id r r' [] e s h = refl
find_reference-put_none ref id r r' (q ∷ rs) e s h =
    ground (arith, find_reference-put_none ref id r r' rs)

-- Changing a refund in place keeps the keys distinct.
pub AreDistinct-put_refund :
    (id : Uuid) (r r' : Refund) (rs : List Refund)
    → r'.id ≡ id
    → r'.reference_id ≡ r.reference_id
    → find_refund id rs ≡ some r
    → AreDistinct rs
    → AreDistinct (put_refund id r' rs)
unfolding find_refund put_refund
AreDistinct-put_refund id r r' [] e f s h = h
AreDistinct-put_refund id r r' (q ∷ rs) e f s h = ground (
  arith,
  AreDistinct-put_refund id r r' rs e f,
  find_refund-put_none q.id id r' rs,
  find_reference-put_none q.reference_id id r r' rs,
)

find_refund-append_none :
    (j : Uuid) (r : Refund) (rs : List Refund)
    → find_refund j rs ≡ none
    → (r.id == j) ≡ false
    → find_refund j (rs ++ r ∷ []) ≡ none
unfolding find_refund
find_refund-append_none j r [] h e = rw e
find_refund-append_none j r (q ∷ rs) h e = ground (arith, find_refund-append_none j r rs)

find_reference-append_none :
    (ref : String) (r : Refund) (rs : List Refund)
    → find_reference ref rs ≡ none
    → str_eq r.reference_id ref ≡ false
    → find_reference ref (rs ++ r ∷ []) ≡ none
unfolding find_reference
find_reference-append_none ref r [] h e = rw e
find_reference-append_none ref r (q ∷ rs) h e = ground (arith, find_reference-append_none ref r rs)

-- A refund with a new ID and a new reference can be added.
pub AreDistinct-append :
    (r : Refund) (rs : List Refund)
    → find_refund r.id rs ≡ none
    → find_reference r.reference_id rs ≡ none
    → AreDistinct rs
    → AreDistinct (rs ++ r ∷ [])
unfolding find_refund find_reference
AreDistinct-append r [] h k d = (refl, refl, tt)
AreDistinct-append r (q ∷ rs) h k d = ground (
  arith,
  AreDistinct-append r rs,
  eq_iff q.reference_id r.reference_id,
  eq_iff r.reference_id q.reference_id,
  find_refund-append_none q.id r rs,
  find_reference-append_none q.reference_id r rs,
)

-- After a refund that is there was replaced by one with the same ID, that ID finds the new one, and any
-- other ID what it found before.
pub find_refund-put :
    (j id : Uuid) (r r' : Refund) (rs : List Refund)
    → r'.id ≡ id
    → find_refund id rs ≡ some r
    → find_refund j (put_refund id r' rs) ≡ (if id == j then some r' else find_refund j rs)
unfolding find_refund put_refund
find_refund-put j id r r' [] e h = cc
find_refund-put j id r r' (q ∷ rs) e h = ground (arith, find_refund-put j id r r' rs)

pub find_refund-append :
    (j : Uuid) (r : Refund) (rs : List Refund)
    → find_refund j rs ≡ none
    → find_refund j (rs ++ r ∷ []) ≡ (if r.id == j then some r else none)
unfolding find_refund
find_refund-append j r [] h = refl
find_refund-append j r (q ∷ rs) h = ground (arith, find_refund-append j r rs)
