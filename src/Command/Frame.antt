-- ===== src/Command/Frame.antt =====
-- Frame rules: which part of the world an action leaves as it was, however it ends.
use payment_module.Common.{◌≡◌, refl, ◌∙◌, Bool, true, false, String, List, if◌then◌else◌, arith}
use payment_module.Errors.{Error, Result, ok, err}
use payment_module.Domain.Types.{Uuid, Payment}
use payment_module.Ports.Attempt.{Attempt}
use payment_module.Store.Rows.{Db}
use payment_module.Ports.Gateway.{Gateway}
use payment_module.Command.World.{
  World, Env, Action, pure, raise, lift, continue, attempt, warn, complain, GatewayCall, ◌>>=◌,
}
use payment_module.Command.Calls.{
  cancel_transaction, now, fresh_uuid, find_by_id, find_by_reference, save, drop_cached,
  record_attempt,
}

pub record Leaves {X A : Type 0} (part : World → X) (m : Action A) : Type 0 where
  pub at : (w : World) → part (m w).1 ≡ part w

module _ {X : Type 0} (part : World → X) where
  pub Leaves-pure : {A : Type 0} (a : A) → Leaves part (pure a)
  Leaves-pure a = record { at = λ w. refl }

  pub Leaves-raise : {A : Type 0} (e : Error) → Leaves part (raise {A = A} e)
  Leaves-raise e = record { at = λ w. refl }

  pub Leaves-lift : {A : Type 0} (r : Result A) → Leaves part (lift r)
  Leaves-lift r = record { at = λ w. refl }

  pub Leaves-continue :
      {A B : Type 0} (r : Result A) (f : A → Action B)
      → ((a : A) → Leaves part (f a))
      → Leaves part (continue r f)
  Leaves-continue (ok a) f h = record { at = λ w. (h a).at w }
  Leaves-continue (err e) f h = record { at = λ w. refl }

  pub Leaves-bind :
      {A B : Type 0} (m : Action A) (f : A → Action B)
      → Leaves part m
      → ((a : A) → Leaves part (f a))
      → Leaves part (m >>= f)
  Leaves-bind m f h k = record { at = λ w. (Leaves-continue (m w).0 f k).at (m w).1 ∙ h.at w }

  pub Leaves-attempt : {A : Type 0} (m : Action A) → Leaves part m → Leaves part (attempt m)
  Leaves-attempt m h = record { at = λ w. h.at w }

  pub Leaves-if :
      {A : Type 0} (b : Bool) (m n : Action A)
      → Leaves part m
      → Leaves part n
      → Leaves part (if b then m else n)
  Leaves-if true m n h k = h
  Leaves-if false m n h k = k

pub ruleset frame_rules =
    (Leaves-pure, Leaves-raise, Leaves-lift, Leaves-bind, Leaves-attempt, Leaves-if)

abbrev pub sent_of : World → List GatewayCall
sent_of w = w.sent

-- What only the database calls and the gateway calls change.
module _ (env : Env) where
  pub now-sent : Leaves sent_of (now env)
  unfolding now
  now-sent = record { at = λ w. refl }

  pub fresh_uuid-sent : Leaves sent_of (fresh_uuid env)
  unfolding fresh_uuid
  fresh_uuid-sent = record { at = λ w. refl }

  pub find_by_id-sent : (id : Uuid) → Leaves sent_of (find_by_id env id)
  unfolding find_by_id
  find_by_id-sent id = record { at = λ w. refl }

  pub find_by_reference-sent :
      (ref caller : String) → Leaves sent_of (find_by_reference env ref caller)
  unfolding find_by_reference
  find_by_reference-sent ref caller = record { at = λ w. refl }

  pub save-sent : (p : Payment) → Leaves sent_of (save env p)
  unfolding save
  save-sent p = record { at = λ w. refl }

  pub drop_cached-sent : (p : Payment) → Leaves sent_of (drop_cached env p)
  unfolding drop_cached
  drop_cached-sent p = record { at = λ w. refl }

  pub record_attempt-sent : (a : Attempt) → Leaves sent_of (record_attempt env a)
  unfolding record_attempt
  record_attempt-sent a = record { at = λ w. ground arith }

pub warn-sent : (s : String) → Leaves sent_of (warn s)
warn-sent s = record { at = λ w. refl }

pub complain-sent : (s : String) → Leaves sent_of (complain s)
complain-sent s = record { at = λ w. refl }

pub ruleset sent_rules = (
  frame_rules, now-sent, fresh_uuid-sent, find_by_id-sent, find_by_reference-sent, save-sent,
  drop_cached-sent, record_attempt-sent, warn-sent, complain-sent,
)

abbrev pub db_of : World → Db
db_of w = w.db

module _ (env : Env) where
  pub now-db : Leaves db_of (now env)
  unfolding now
  now-db = record { at = λ w. refl }

  pub record_attempt-db : (a : Attempt) → Leaves db_of (record_attempt env a)
  unfolding record_attempt
  record_attempt-db a = record { at = λ w. ground arith }

  pub cancel_transaction-db :
      (gw : Gateway) (tx : String) → Leaves db_of (cancel_transaction env gw tx)
  unfolding cancel_transaction
  cancel_transaction-db gw tx = record { at = λ w. refl }

pub warn-db : (s : String) → Leaves db_of (warn s)
warn-db s = record { at = λ w. refl }

pub complain-db : (s : String) → Leaves db_of (complain s)
complain-db s = record { at = λ w. refl }

pub ruleset db_rules =
    (frame_rules, now-db, record_attempt-db, cancel_transaction-db, warn-db, complain-db)
