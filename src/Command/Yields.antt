-- ===== src/Command/Yields.antt =====
-- Rules for what the value of an action satisfies, when the action succeeds.
use mathlib.Core.Path.{subst, ap}
use payment_module.Common.{◌≡◌, refl, Bool, true, false, if◌then◌else◌}
use payment_module.Errors.{Error, Result, ok, err}
use payment_module.Command.World.{World, Action, pure, raise, lift, continue, ◌>>=◌}

pub record Yields {A : Type 0} (P : A → Type 0) (m : Action A) : Type 0 where
  pub at : (w : World) (a : A) → (m w).0 ≡ ok a → P a

module _ {B : Type 0} {Q : B → Type 0} where
  pub Yields-pure : (b : B) → Q b → Yields Q (pure b)
  Yields-pure b h = record { at = λ w c e. subst Q (cc e) h }

  pub Yields-raise : (e : Error) → Yields Q (raise e)
  Yields-raise e = record { at = λ w c h. cc h }

  pub Yields-lift : (r : Result B) → ((b : B) → r ≡ ok b → Q b) → Yields Q (lift r)
  Yields-lift r h = record { at = λ w c e. h c e }

  pub Yields-continue :
      {A : Type 0} (r : Result A) (f : A → Action B)
      → ((a : A) → r ≡ ok a → Yields Q (f a))
      → Yields Q (continue r f)
  Yields-continue (ok a) f h = record { at = λ w. (h a refl).at w }
  Yields-continue (err e) f h = Yields-raise e

  pub Yields-lift_bind :
      {A : Type 0} (r : Result A) (f : A → Action B)
      → ((a : A) → r ≡ ok a → Yields Q (f a))
      → Yields Q (lift r >>= f)
  Yields-lift_bind r f h = record { at = λ w. (Yields-continue r f h).at w }

  pub Yields-bind :
      {A : Type 0} (P : A → Type 0) (m : Action A) (f : A → Action B)
      → Yields P m
      → ((a : A) → P a → Yields Q (f a))
      → Yields Q (m >>= f)
  Yields-bind P m f h k = record {
    at = λ w. (Yields-continue (m w).0 f (λ a e. k a (h.at w a e))).at (m w).1;
  }

  pub Yields-any :
      {A : Type 0} (m : Action A) (f : A → Action B)
      → ((a : A) → Yields Q (f a))
      → Yields Q (m >>= f)
  Yields-any m f k = record { at = λ w. (Yields-continue (m w).0 f (λ a _. k a)).at (m w).1 }

  pub Yields-if :
      (b : Bool) (m n : Action B) → Yields Q m → Yields Q n → Yields Q (if b then m else n)
  Yields-if true m n h k = h
  Yields-if false m n h k = k

  -- The same, where the branches know the test.
  pub Yields-when :
      (b : Bool) (m n : Action B)
      → (b ≡ true → Yields Q m)
      → (b ≡ false → Yields Q n)
      → Yields Q (if b then m else n)
  Yields-when true m n h k = h refl
  Yields-when false m n h k = k refl

pub ruleset yields_rules = (Yields-pure, Yields-raise, Yields-lift_bind, Yields-any, Yields-if)

-- An action that ends in a value goes on with it.
pub bind-ok :
    {A B : Type 0} (m : Action A) (f : A → Action B) (w v : World) (a : A)
    → m w ≡ (ok a, v)
    → (m >>= f) w ≡ f a v
bind-ok {A = A} m f w v a e = ap (λ (r : Result A × World). continue r.0 f r.1) e

-- An action that ends in an error ends there.
pub bind-err :
    {A B : Type 0} (m : Action A) (f : A → Action B) (w v : World) (e : Error)
    → m w ≡ (err e, v)
    → (m >>= f) w ≡ (err e, v)
bind-err {A = A} m f w v e h = ap (λ (r : Result A × World). continue r.0 f r.1) h
