-- ===== src/Command/CancelSteps.antt =====
-- CancelPaymentHandler.Handle (cancel_payment.go), from the loaded payment to the saved one.
use mathlib.Core.Path.{subst}
use payment_module.Common.{◌≡◌, sym, arith, true, ℕ, Option, some, none, str_eq}
use payment_module.Errors.{Error, Result, ok, err}
use payment_module.Domain.Types.{Payment}
use payment_module.Domain.Aggregate.{cancel}
use payment_module.Ports.Gateway.{Gateway}
use payment_module.Store.Rows.{Db}
use payment_module.Store.Save
use payment_module.Command.World.{World, Env, Action, continue, ◌>>=◌, ◌>>◌}
use payment_module.Command.Calls.{now, save, find_by_id, drop_cached, advance}
use payment_module.Command.Frame.{db_of, db_rules, Leaves}
use payment_module.Command.Succeeds.{Succeeds, success_rules}
use payment_module.Command.Cancel.{
  CancelPaymentCommand, cancel_with, cancel_at, warn_of_cancel, handle_cancel,
}
use payment_module.Command.Cancel

-- A result without its value.
abbrev pub ended : Result Payment → Result (Unit {0})
ended (ok p) = ok tt
ended (err e) = err e

-- The action ends as one save of `q` ends, and changes the tables `db` as that save does.
pub record EndsAsSave (env : Env) (q : Payment) (db : Db) (t : Result (Unit {0}) × World)
    : Type 0 where
  pub tick : ℕ
  pub ends : t.0 ≡ ended (Save.save env.show (env.session tick) q (env.meanwhile tick db)).0
  pub stores : t.1.db ≡ (Save.save env.show (env.session tick) q (env.meanwhile tick db)).1

module _ (env : Env) where
  warn_of_cancel-db : (answer : Option Error) → Leaves db_of (warn_of_cancel env answer)
  unfolding warn_of_cancel
  warn_of_cancel-db none = search db_rules
  warn_of_cancel-db (some e) = search db_rules

  cancel_at-db : (gw : Gateway) (p : Payment) → Leaves db_of (cancel_at env gw p)
  unfolding cancel_at
  cancel_at-db gw p = search (db_rules, warn_of_cancel-db) depth 10

  cancel_with-db : (r : Result Gateway) (p : Payment) → Leaves db_of (cancel_with env r p)
  unfolding cancel_with
  cancel_with-db (ok gw) p = search (db_rules, cancel_at-db)
  cancel_with-db (err e) p = search db_rules

  warn_of_cancel-Succeeds : (answer : Option Error) → Succeeds (warn_of_cancel env answer)
  unfolding warn_of_cancel
  warn_of_cancel-Succeeds none = search success_rules
  warn_of_cancel-Succeeds (some e) = search success_rules

  cancel_at-Succeeds : (gw : Gateway) (p : Payment) → Succeeds (cancel_at env gw p)
  unfolding cancel_at
  cancel_at-Succeeds gw p = search (success_rules, warn_of_cancel-Succeeds) depth 10

  cancel_with-Succeeds : (r : Result Gateway) (p : Payment) → Succeeds (cancel_with env r p)
  unfolding cancel_with
  cancel_with-Succeeds (ok gw) p = search (success_rules, cancel_at-Succeeds)
  cancel_with-Succeeds (err e) p = search success_rules

  saved_last :
      (q : Payment) (w : World) → EndsAsSave env q w.db ((save env q >>= drop_cached env) w)
  unfolding save drop_cached
  saved_last q w = record { tick = w.tick; ends = ground arith; stores = ground arith }

  after_success :
      {A : Type 0} (m : Action A) (next : Action (Unit {0})) (q : Payment) (w : World)
      → Succeeds m
      → Leaves db_of m
      → ((v : World) → EndsAsSave env q v.db (next v))
      → EndsAsSave env q w.db ((m >> next) w)
  after_success m next q w h l k =
      subst (λ r. EndsAsSave env q w.db (continue r (λ _. next) (m w).1)) (sym (h.at w).1)
        (subst (λ db. EndsAsSave env q db (next (m w).1)) (l.at w) (k (m w).1))

-- When the payment was loaded, is the caller's own and can be cancelled, the cancellation ends as the
-- save of the cancelled payment ends, and changes the tables as that save does, whatever the gateway
-- answers and even when there is none.
pub handle_cancel-EndsAsSave :
    (env : Env) (cmd : CancelPaymentCommand) (w v : World) (p q : Payment)
    → find_by_id env cmd.payment_id w ≡ (ok p, v)
    → str_eq p.caller_service cmd.caller_service ≡ true
    → cancel (env.clock v.tick) p ≡ ok q
    → EndsAsSave env q v.db (handle_cancel env cmd w)
unfolding handle_cancel Cancel.check_owner now
handle_cancel-EndsAsSave env cmd w v p q loaded own cancelled =
    subst (EndsAsSave env q v.db) (sym (ground (arith, loaded, own, cancelled))) (
      after_success env (cancel_with env (env.factory q.gateway_type) q)
        (save env q >>= drop_cached env) q (advance v)
        (cancel_with-Succeeds env (env.factory q.gateway_type) q)
        (cancel_with-db env (env.factory q.gateway_type) q) (saved_last env q))
