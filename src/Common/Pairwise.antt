-- ===== src/Common/Pairwise.antt =====
-- Two lists of the same length whose items are related one by one.
use mathlib.Core.List.{List, [], ◌∷◌, ◌++◌}

module _ {ℓ} {A : Type ℓ} where
  abbrev pub Aligned : (A → A → Type 0) → List A → List A → Type 0
  Aligned R [] [] = Unit
  Aligned R (x ∷ xs) (y ∷ ys) = R x y × Aligned R xs ys
  Aligned R [] (y ∷ ys) = ⊥
  Aligned R (x ∷ xs) [] = ⊥

  pub Aligned-refl : (R : A → A → Type 0) (xs : List A) → ((x : A) → R x x) → Aligned R xs xs
  Aligned-refl R [] h = tt
  Aligned-refl R (x ∷ xs) h = (h x, Aligned-refl R xs h)

  pub Aligned-trans :
      (R : A → A → Type 0) (xs ys zs : List A)
      → ((x y z : A) → R x y → R y z → R x z)
      → Aligned R xs ys
      → Aligned R ys zs
      → Aligned R xs zs
  Aligned-trans R [] [] zs h a b = b
  Aligned-trans R [] (y ∷ ys) zs h a b = elim a [ ]
  Aligned-trans R (x ∷ xs) [] zs h a b = elim a [ ]
  Aligned-trans R (x ∷ xs) (y ∷ ys) [] h a b = elim b [ ]
  Aligned-trans R (x ∷ xs) (y ∷ ys) (z ∷ zs) h (r, a) (s, b) =
      (h x y z r s, Aligned-trans R xs ys zs h a b)

  pub Aligned-weaken :
      (R S : A → A → Type 0) (xs ys : List A)
      → ((x y : A) → R x y → S x y)
      → Aligned R xs ys
      → Aligned S xs ys
  Aligned-weaken R S [] [] h a = tt
  Aligned-weaken R S [] (y ∷ ys) h a = elim a [ ]
  Aligned-weaken R S (x ∷ xs) [] h a = elim a [ ]
  Aligned-weaken R S (x ∷ xs) (y ∷ ys) h (r, a) = (h x y r, Aligned-weaken R S xs ys h a)

  pub Aligned-append :
      (R : A → A → Type 0) (xs ys zs : List A)
      → ((x : A) → R x x)
      → Aligned R xs ys
      → Aligned R (xs ++ zs) (ys ++ zs)
  Aligned-append R [] [] zs h a = Aligned-refl R zs h
  Aligned-append R [] (y ∷ ys) zs h a = elim a [ ]
  Aligned-append R (x ∷ xs) [] zs h a = elim a [ ]
  Aligned-append R (x ∷ xs) (y ∷ ys) zs h (r, a) = (r, Aligned-append R xs ys zs h a)
