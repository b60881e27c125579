-- ===== src/Common/Windows.antt =====
-- The first items of a list, and pages of it.
use mathlib.Core.Path.{◌≡◌, refl, ap}
use mathlib.Core.Bool.{Bool, true, ◌&&◌}
use mathlib.Core.Option.{Option, none, some}
use mathlib.Core.List.{List, [], ◌∷◌, ◌++◌, map}
use native.Mathlib.Omega.{arith}
use Prim.Native.Nat.{ℕ, zero, suc, ◌≤◌, ◌<◌}
use payment_module.Common.Tests.{if-either}
use payment_module.Common.Lists.{All, length}
use payment_module.Common.Ordered.{keep}

unfoldable pub limited {ℓ} : {A : Type ℓ} → ℕ → List A → List A
limited zero xs = []
limited (suc n) [] = []
limited (suc n) (x ∷ xs) = x ∷ limited n xs

unfoldable pub last_of {ℓ} : {A : Type ℓ} → List A → Option A
last_of [] = none
last_of (x ∷ []) = some x
last_of (x ∷ y ∷ ys) = last_of (y ∷ ys)

module _ {A : Type 0} where
  pub keep-All : (p : A → Bool) (xs : List A) → All (λ x. p x ≡ true) (keep p xs)
  unfolding keep
  keep-All p [] = tt
  keep-All p (x ∷ xs) =
      if-either (All (λ x. p x ≡ true)) (p x) (x ∷ keep p xs) (keep p xs) (λ e. (e, keep-All p xs))
        (λ e. keep-All p xs)

  pub keep-keep :
      (p q r : A → Bool) (xs : List A)
      → ((x : A) → q x && p x ≡ r x)
      → keep p (keep q xs) ≡ keep r xs
  unfolding keep
  keep-keep p q r [] h = refl
  keep-keep p q r (x ∷ xs) h = ground (arith, h x, keep-keep p q r xs h)

  pub limited-all : (n : ℕ) (xs : List A) → length xs ≤ n → limited n xs ≡ xs
  unfolding limited
  limited-all zero [] h = refl
  limited-all zero (x ∷ xs) h = absurd (omega (arith, h))
  limited-all (suc n) [] h = refl
  limited-all (suc n) (x ∷ xs) h = ap (λ z. x ∷ z) (limited-all n xs (omega (arith, h)))

  pub length-limited : (n : ℕ) (xs : List A) → length (limited n xs) ≤ n
  unfolding limited
  length-limited zero xs = omega arith
  length-limited (suc n) [] = omega arith
  length-limited (suc n) (x ∷ xs) = omega (arith, length-limited n xs)

  pub limited-fits : (n : ℕ) (xs : List A) → length (limited (suc n) xs) ≤ n → length xs ≤ n
  unfolding limited
  limited-fits n [] h = omega arith
  limited-fits zero (x ∷ xs) h = absurd (omega (arith, h))
  limited-fits (suc n) (x ∷ xs) h = omega (arith, limited-fits n xs (omega (arith, h)))

  pub limited-exceeds : (n : ℕ) (xs : List A) → n < length (limited (suc n) xs) → n < length xs
  unfolding limited
  limited-exceeds n [] h = absurd (omega (arith, h))
  limited-exceeds zero (x ∷ xs) h = omega arith
  limited-exceeds (suc n) (x ∷ xs) h = omega (arith, limited-exceeds n xs (omega (arith, h)))

  -- A list that is longer than a page, around the last item of the page.
  pub record Around (n : ℕ) (xs : List A) : Type 0 where
    pub front : List A
    pub last : A
    pub rest : List A
    pub whole : xs ≡ front ++ last ∷ rest
    pub page : limited (suc n) xs ≡ front ++ last ∷ []

  pub around : (n : ℕ) (xs : List A) → suc n < length xs → Around n xs
  unfolding limited
  around n [] h = absurd (omega (arith, h))
  around zero (x ∷ xs) h = record { front = []; last = x; rest = xs; whole = refl; page = refl }
  around (suc n) (x ∷ xs) h =
      let a : Around n xs = around n xs (omega (arith, h)) in
      record {
        front = x ∷ a.front;
        last = a.last;
        rest = a.rest;
        whole = ap (λ z. x ∷ z) a.whole;
        page = ap (λ z. x ∷ z) a.page;
      }

pub limited-map :
    {A B : Type 0} (f : A → B) (n : ℕ) (xs : List A)
    → limited n (map f (limited (suc n) xs)) ≡ map f (limited n xs)
unfolding limited
limited-map f zero [] = refl
limited-map f zero (x ∷ xs) = refl
limited-map f (suc n) [] = refl
limited-map f (suc n) (x ∷ xs) = ap (λ z. f x ∷ z) (limited-map f n xs)

pub length-map : {A B : Type 0} (f : A → B) (xs : List A) → length (map f xs) ≡ length xs
length-map f [] = refl
length-map f (x ∷ xs) = ap suc (length-map f xs)

pub map-map :
    {A B C : Type 0} (g : B → C) (f : A → B) (xs : List A)
    → map g (map f xs) ≡ map (λ x. g (f x)) xs
map-map g f [] = refl
map-map g f (x ∷ xs) = ap (λ z. g (f x) ∷ z) (map-map g f xs)

pub last_of-map :
    {A B : Type 0} (f : A → B) (front : List A) (x : A)
    → last_of (map f (front ++ x ∷ [])) ≡ some (f x)
unfolding last_of
last_of-map f [] x = refl
last_of-map f (y ∷ []) x = refl
last_of-map f (y ∷ z ∷ front) x = last_of-map f (z ∷ front) x
