-- ===== src/Common/Ordered.antt =====
-- Lists sorted with the greatest first, by insertion, and filters of them.
use mathlib.Core.Path.{◌≡◌, refl, sym, ap, ◌∙◌}
use mathlib.Core.Bool.{Bool, true, false, ◌||◌}
use mathlib.Core.List.{List, [], ◌∷◌, ◌++◌}
use native.Mathlib.Omega.{arith}
use payment_module.Common.Tests.{if◌then◌else◌, if-either}
use payment_module.Common.Lists.{All}

module _ {A : Type 0} (p : A → Bool) where
  unfoldable pub keep : List A → List A
  keep [] = []
  keep (x ∷ xs) = let rest = keep xs in if p x then x ∷ rest else rest

module _ {A : Type 0} (lt : A → A → Bool) where
  unfoldable pub place : A → List A → List A
  place r [] = r ∷ []
  place r (q ∷ qs) = if lt q r then r ∷ q ∷ qs else q ∷ place r qs

  unfoldable pub greatest_first : List A → List A
  unfolding place
  greatest_first [] = []
  greatest_first (x ∷ xs) = place x (greatest_first xs)

  -- Every item is greater than those after it.
  abbrev pub Descending : List A → Type 0
  Descending [] = Unit
  Descending (x ∷ xs) = All (λ y. lt y x ≡ true) xs × Descending xs

  -- Of any two items one is the greater.
  abbrev pub AllApart : List A → Type 0
  AllApart [] = Unit
  AllApart (x ∷ xs) = All (λ y. lt y x || lt x y ≡ true) xs × AllApart xs

  module _ (P : A → Type 0) where
    pub All-keep : (p : A → Bool) (xs : List A) → All P xs → All P (keep p xs)
    unfolding keep
    All-keep p [] h = tt
    All-keep p (x ∷ xs) (k, h) =
        if-either (All P) (p x) (x ∷ keep p xs) (keep p xs) (λ e. (k, All-keep p xs h))
          (λ e. All-keep p xs h)

    pub All-place : (r : A) (xs : List A) → P r → All P xs → All P (place r xs)
    unfolding place
    All-place r [] k h = (k, tt)
    All-place r (q ∷ qs) k (l, h) =
        if-either (All P) (lt q r) (r ∷ q ∷ qs) (q ∷ place r qs) (λ e. (k, (l, h)))
          (λ e. (l, All-place r qs k h))

    pub All-greatest_first : (xs : List A) → All P xs → All P (greatest_first xs)
    unfolding greatest_first
    All-greatest_first [] h = tt
    All-greatest_first (x ∷ xs) (k, h) = All-place x (greatest_first xs) k (All-greatest_first xs h)

    pub All-middle : (front : List A) (x : A) (rest : List A) → All P (front ++ x ∷ rest) → P x
    All-middle [] x rest (k, h) = k
    All-middle (y ∷ front) x rest (k, h) = All-middle front x rest h

    pub All-map : (Q : A → Type 0) (xs : List A) → ((x : A) → P x → Q x) → All P xs → All Q xs
    All-map Q [] f h = tt
    All-map Q (x ∷ xs) f (k, h) = (f x k, All-map Q xs f h)

  module _ (trans : (a b c : A) → lt a b ≡ true → lt b c ≡ true → lt a c ≡ true) where
    below :
        (q r : A) (xs : List A)
        → lt q r ≡ true
        → All (λ y. lt y q ≡ true) xs
        → All (λ y. lt y r ≡ true) xs
    below q r xs e h =
        All-map (λ y. lt y q ≡ true) (λ y. lt y r ≡ true) xs (λ y k. trans y q r k e) h

    place-Descending :
        (r : A) (xs : List A)
        → All (λ y. lt y r || lt r y ≡ true) xs
        → Descending xs
        → Descending (place r xs)
    unfolding place
    place-Descending r [] apart h = (tt, tt)
    place-Descending r (q ∷ qs) (one, apart) (k, h) =
        if-either Descending (lt q r) (r ∷ q ∷ qs) (q ∷ place r qs)
          (λ e. ((e, below q r qs e k), (k, h)))
          λ e. (
            All-place (λ y. lt y q ≡ true) r qs (ground (arith, one, e)) k,
            place-Descending r qs apart h,
          )

    pub greatest_first-Descending : (xs : List A) → AllApart xs → Descending (greatest_first xs)
    unfolding greatest_first
    greatest_first-Descending [] h = tt
    greatest_first-Descending (x ∷ xs) (apart, h) =
        place-Descending x (greatest_first xs)
          (All-greatest_first (λ y. lt y x || lt x y ≡ true) xs apart)
          (greatest_first-Descending xs h)

    place-first : (r : A) (xs : List A) → All (λ y. lt y r ≡ true) xs → place r xs ≡ r ∷ xs
    unfolding place
    place-first r [] h = refl
    place-first r (q ∷ qs) (k, h) = rw k refl

    keep-place :
        (p : A → Bool) (r : A) (xs : List A)
        → Descending xs
        → keep p (place r xs) ≡ (if p r then place r (keep p xs) else keep p xs)
    unfolding keep place
    keep-place p r [] h = refl
    keep-place p r (q ∷ qs) (k, h) =
        if-either (λ z. keep p z ≡ (if p r then place r (keep p (q ∷ qs)) else keep p (q ∷ qs)))
          (lt q r) (r ∷ q ∷ qs) (q ∷ place r qs)
          (λ e.
            ap (λ z. if p r then z else keep p (q ∷ qs))
              (sym (
                place-first r (keep p (q ∷ qs))
                  (All-keep (λ y. lt y r ≡ true) p (q ∷ qs) (e, below q r qs e k)))))
          λ e. ground (arith, e, keep-place p r qs h)

    -- A filter of a sorted list is the filtered list sorted.
    pub keep-greatest_first :
        (p : A → Bool) (xs : List A)
        → AllApart xs
        → keep p (greatest_first xs) ≡ greatest_first (keep p xs)
    unfolding keep greatest_first
    keep-greatest_first p [] h = refl
    keep-greatest_first p (x ∷ xs) (apart, h) =
        keep-place p x (greatest_first xs) (greatest_first-Descending xs h)
        ∙ if-either
            (λ z.
              (if p x then place x (keep p (greatest_first xs)) else keep p (greatest_first xs))
              ≡ greatest_first z)
            (p x) (x ∷ keep p xs) (keep p xs)
            (λ e. rw e (ap (place x) (keep-greatest_first p xs h)))
            (λ e. rw e (keep-greatest_first p xs h))

    module _ (asym : (a b : A) → lt a b ≡ true → lt b a ≡ false)
        (irrefl : (a : A) → lt a a ≡ false) where
      keep-All :
          (last : A) (xs : List A) → All (λ y. lt y last ≡ true) xs → keep (λ y. lt y last) xs ≡ xs
      unfolding keep
      keep-All last [] h = refl
      keep-All last (x ∷ xs) (k, h) = rw k (ap (λ z. x ∷ z) (keep-All last xs h))

      -- What is below an item of a sorted list is what stands after it.
      pub keep-after :
          (front : List A) (last : A) (rest : List A)
          → Descending (front ++ last ∷ rest)
          → keep (λ y. lt y last) (front ++ last ∷ rest) ≡ rest
      unfolding keep
      keep-after [] last rest (k, h) = rw (irrefl last) (keep-All last rest k)
      keep-after (x ∷ front) last rest (k, h) =
          rw (asym last x (All-middle (λ y. lt y x ≡ true) front last rest k))
            (keep-after front last rest h)
