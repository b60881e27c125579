-- ===== src/Command/Sends.antt =====
-- Rules for what an action has sent to the gateways when it ends.
use mathlib.Core.Path.{subst}
use payment_module.Common.{◌≡◌, refl, ◌∙◌, sym, ap, List, [], ◌∷◌, ◌++◌}
use payment_module.Errors.{Result, ok, err}
use payment_module.Command.World.{World, Action, GatewayCall, raise, continue, ◌>>=◌}
use payment_module.Command.Frame.{Leaves, Leaves-raise, Leaves-continue, sent_of}
use payment_module.Command.Yields.{Yields}

-- The action sends exactly the call `c`, however it ends.
pub record Adds (c : GatewayCall) {A : Type 0} (m : Action A) : Type 0 where
  pub at : (w : World) → (m w).1.sent ≡ w.sent ++ c ∷ []

-- From a world that has sent `before`, the requests sent at the end satisfy `Q`.
pub record Sends (before : List GatewayCall) (Q : List GatewayCall → Type 0) {A : Type 0}
    (m : Action A) : Type 0 where
  pub at : (w : World) → w.sent ≡ before → Q (m w).1.sent

module _ {before : List GatewayCall} {Q : List GatewayCall → Type 0} (nothing : Q before) where
  pub Sends-quiet : {A : Type 0} (m : Action A) → Leaves sent_of m → Sends before Q m
  Sends-quiet m h = record { at = λ w e. subst Q (sym (h.at w ∙ e)) nothing }

  Sends-continue :
      {A B : Type 0} (r : Result A) (f : A → Action B)
      → ((a : A) → r ≡ ok a → Sends before Q (f a))
      → Sends before Q (continue r f)
  Sends-continue (ok a) f k = k a refl
  Sends-continue (err e) f k = Sends-quiet (raise e) (Leaves-raise sent_of e)

  -- What follows an action that sends nothing.
  pub Sends-after :
      {A B : Type 0} (m : Action A) (f : A → Action B)
      → Leaves sent_of m
      → ((a : A) → Sends before Q (f a))
      → Sends before Q (m >>= f)
  Sends-after m f h k = record {
    at = λ w e. (Sends-continue (m w).0 f (λ a _. k a)).at (m w).1 (h.at w ∙ e);
  }

  -- The same, where the value of the first action satisfies `P`.
  pub Sends-after_yield :
      {A B : Type 0} (P : A → Type 0) (m : Action A) (f : A → Action B)
      → Leaves sent_of m
      → Yields P m
      → ((a : A) → P a → Sends before Q (f a))
      → Sends before Q (m >>= f)
  Sends-after_yield P m f h y k = record {
    at = λ w e. (Sends-continue (m w).0 f (λ a s. k a (y.at w a s))).at (m w).1 (h.at w ∙ e);
  }

-- One call, and nothing after it.
pub Sends-once :
    {before : List GatewayCall} {Q : List GatewayCall → Type 0} {A B : Type 0} (c : GatewayCall)
    (m : Action A) (f : A → Action B)
    → Q (before ++ c ∷ [])
    → Adds c m
    → ((a : A) → Leaves sent_of (f a))
    → Sends before Q (m >>= f)
Sends-once {Q} c m f q adds quiet = record {
  at = λ w e.
      subst Q
        (sym (
          (Leaves-continue sent_of (m w).0 f quiet).at (m w).1
          ∙ adds.at w
          ∙ ap (λ (l : List GatewayCall). l ++ c ∷ []) e))
        q;
}
