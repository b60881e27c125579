-- ===== src/Command/Succeeds.antt =====
-- Rules for actions that never end in an error.
use payment_module.Common.{String, ◌≡◌, refl, Bool, true, false, if◌then◌else◌, arith, String}
use payment_module.Errors.{Result, ok, err}
use payment_module.Ports.Attempt.{Attempt}
use payment_module.Ports.Gateway.{Gateway, RefundRequest}
use payment_module.Command.World.{
  World, Env, Action, pure, attempt, warn, complain, continue, ◌>>=◌,
}
use payment_module.Command.Calls.{now, record_attempt, create_refund, cancel_transaction}

pub record Succeeds {A : Type 0} (m : Action A) : Type 0 where
  pub at : (w : World) → (a : A) × ((m w).0 ≡ ok a)

pub Succeeds-pure : {A : Type 0} (a : A) → Succeeds (pure a)
Succeeds-pure a = record { at = λ w. (a, refl) }

pub Succeeds-attempt : {A : Type 0} (m : Action A) → Succeeds (attempt m)
Succeeds-attempt m = record { at = λ w. ((m w).0, refl) }

Succeeds-continue :
    {A B : Type 0} (r : Result A) (f : A → Action B) (a : A)
    → r ≡ ok a
    → ((a : A) → Succeeds (f a))
    → Succeeds (continue r f)
Succeeds-continue (ok b) f a e k = record { at = λ w. (k b).at w }
Succeeds-continue (err x) f a e k = cc e

pub Succeeds-bind :
    {A B : Type 0} (m : Action A) (f : A → Action B)
    → Succeeds m
    → ((a : A) → Succeeds (f a))
    → Succeeds (m >>= f)
Succeeds-bind m f h k = record {
  at = λ w. (Succeeds-continue (m w).0 f (h.at w).0 (h.at w).1 k).at (m w).1;
}

pub Succeeds-if :
    {A : Type 0} (b : Bool) (m n : Action A)
    → Succeeds m
    → Succeeds n
    → Succeeds (if b then m else n)
Succeeds-if true m n h k = h
Succeeds-if false m n h k = k

pub Succeeds-warn : (s : String) → Succeeds (warn s)
Succeeds-warn s = record { at = λ w. (tt, refl) }

pub Succeeds-complain : (s : String) → Succeeds (complain s)
Succeeds-complain s = record { at = λ w. (tt, refl) }

module _ (env : Env) where
  pub Succeeds-now : Succeeds (now env)
  unfolding now
  Succeeds-now = record { at = λ w. (env.clock w.tick, refl) }

  pub Succeeds-record_attempt : (a : Attempt) → Succeeds (record_attempt env a)
  unfolding record_attempt
  Succeeds-record_attempt a = record { at = λ w. (tt, ground arith) }

  pub Succeeds-create_refund :
      (gw : Gateway) (req : RefundRequest) → Succeeds (create_refund env gw req)
  unfolding create_refund
  Succeeds-create_refund gw req = record { at = λ w. (gw.create_refund w.tick req, refl) }

  pub Succeeds-cancel_transaction :
      (gw : Gateway) (tx : String) → Succeeds (cancel_transaction env gw tx)
  unfolding cancel_transaction
  Succeeds-cancel_transaction gw tx = record { at = λ w. (gw.cancel_transaction w.tick tx, refl) }

pub ruleset success_rules = (
  Succeeds-pure, Succeeds-attempt, Succeeds-bind, Succeeds-if, Succeeds-warn, Succeeds-complain,
  Succeeds-now, Succeeds-record_attempt, Succeeds-create_refund, Succeeds-cancel_transaction,
)
