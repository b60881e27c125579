-- ===== src/Command/CreateErrors.antt =====
-- CreatePaymentHandler.Handle (create_payment.go), where CreateTransaction returned an error.
use mathlib.Core.Path.{subst}
use payment_module.Common.{
  ◌≡◌, refl, sym, ◌∙◌, ap, arith, true, false, ℕ, suc, if◌then◌else◌, Bool-cases, inl, inr,
}
use payment_module.Common.Int.{◌-ℤ◌}
use payment_module.Errors.{Error, Result, ok, err, is_code, is_unknown, Code, error_text}
use payment_module.Domain.Types.{Payment, Time}
use payment_module.Domain.Aggregate.{mark_failed}
use payment_module.Ports.Attempt.{Attempt, GatewayOperation, blank, failed_attempt}
use payment_module.Store.Save
use payment_module.Store.Save.{Session}
use payment_module.Command.World.{raise, ◌>>◌, World, Env, Action, ◌>>=◌, raise}
use payment_module.Command.Calls.{advance, now, save, record_attempt}
use payment_module.Command.Frame.{db_of, db_rules, record_attempt-db, Leaves}
use payment_module.Command.Create.{
  CreatePaymentResult, answered, charge_errored, charge_errored, charge_failed, charge_unknown,
  charge_refused, unknown_stored, warn_unless_saved, or_unchanged,
}

-- The payment that is stored after a charge that returned the error: as it was if the charge may have
-- been taken, and marked as failed otherwise.
abbrev pub after_error : Time → Error → Payment → Payment
after_error at e p =
    if is_unknown e then p else or_unchanged p (mark_failed at "GATEWAY_ERROR" (error_text e) p)

-- The action ends in an error, and what it did to the tables is one save of the payment after the error.
pub record StoresError (env : Env) (p : Payment) (e : Error) (w : World)
    (t : Result CreatePaymentResult × World) : Type 0 where
  pub time : Time
  pub tick : ℕ
  pub error : Error
  pub fails : t.0 ≡ err error
  pub stores :
      t.1.db
      ≡ (Save.save env.show (env.session tick) (after_error time e p) (env.meanwhile tick w.db)).1

module _ (env : Env) (p : Payment) (e : Error) where
  unknown_stored-db : (r : Result Payment) → Leaves db_of (unknown_stored env p e r)
  unfolding unknown_stored
  unknown_stored-db (ok q) = search db_rules
  unknown_stored-db (err f) = search db_rules

  unknown_stored-fails :
      (r : Result Payment) (w : World)
      → (error : Error) × ((unknown_stored env p e r w).0 ≡ err error)
  unfolding unknown_stored
  unknown_stored-fails (ok q) w = (_, refl)
  unknown_stored-fails (err f) w = (_, refl)

  refused-fails :
      (r : Result Payment) (w : World)
      → ((warn_unless_saved env r >>= λ _. raise {A = CreatePaymentResult} e) w).0 ≡ err e
  unfolding warn_unless_saved
  refused-fails (ok q) w = refl
  refused-fails (err f) w = refl

  refused-db :
      (r : Result Payment)
      → Leaves db_of (warn_unless_saved env r >>= λ _. raise {A = CreatePaymentResult} e)
  unfolding warn_unless_saved
  refused-db (ok q) = search db_rules
  refused-db (err f) = search db_rules

  unknown-StoresError :
      (w : World) → is_unknown e ≡ true → StoresError env p e w (charge_unknown env p e w)
  unfolding charge_unknown save
  unknown-StoresError w may_be =
      let (r, db) = Save.save env.show (env.session w.tick) p (env.meanwhile w.tick w.db) in
      let w' : World = record w { db = db; tick = suc w.tick } in
      let same : after_error (env.clock 0) e p ≡ p = rw may_be refl in
      record {
        time = env.clock 0;
        tick = w.tick;
        error = (unknown_stored-fails r w').0;
        fails = (unknown_stored-fails r w').1;
        stores =
            (unknown_stored-db r).at w'
            ∙ ap (λ q. (Save.save env.show (env.session w.tick) q (env.meanwhile w.tick w.db)).1)
                (sym same);
      }

  refused-StoresError :
      (w : World) → is_unknown e ≡ false → StoresError env p e w (charge_refused env p e w)
  unfolding charge_refused save now
  refused-StoresError w sure =
      let at : Time = env.clock w.tick in
      let gone : Payment = or_unchanged p (mark_failed at "GATEWAY_ERROR" (error_text e) p) in
      let (r, db) =
        Save.save env.show (env.session (suc w.tick)) gone (env.meanwhile (suc w.tick) w.db) in
      let w' : World = record w { db = db; tick = suc (suc w.tick) } in
      let same : after_error at e p ≡ gone = rw sure refl in
      record {
        time = at;
        tick = suc w.tick;
        error = e;
        fails = refused-fails r w';
        stores =
            (refused-db r).at w'
            ∙ ap
                (λ q.
                  (Save.save env.show (env.session (suc w.tick)) q
                    (env.meanwhile (suc w.tick) w.db)).1)
                (sym same);
      }

  charge_failed-StoresError : (w : World) → StoresError env p e w (charge_failed env p e w)
  unfolding charge_failed
  charge_failed-StoresError w = elim (Bool-cases (is_unknown e)) [
    | inl may_be ↦
        subst
          (λ b.
            StoresError env p e w
              ((if b then charge_unknown env p e else charge_refused env p e) w))
          (sym may_be) (unknown-StoresError w may_be)
    | inr sure ↦
        subst
          (λ b.
            StoresError env p e w
              ((if b then charge_unknown env p e else charge_refused env p e) w))
          (sym sure) (refused-StoresError w sure)
  ]

record_attempt-then :
    {B : Type 0} (env : Env) (a : Attempt) (f : Action B) (w : World)
    → (record_attempt env a >> f) w ≡ f (record_attempt env a w).1
unfolding record_attempt
record_attempt-then env a f w = ground arith

-- The same tables at the start, the same outcome.
StoresError-from :
    (env : Env) (p : Payment) (e : Error) (w v : World) (t : Result CreatePaymentResult × World)
    → v.db ≡ w.db
    → StoresError env p e v t
    → StoresError env p e w t
StoresError-from env p e w v t same h = record {
  time = h.time;
  tick = h.tick;
  error = h.error;
  fails = h.fails;
  stores =
      h.stores
      ∙ ap
          (λ db.
            (Save.save env.show (env.session h.tick) (after_error h.time e p)
              (env.meanwhile h.tick db)).1)
          same;
}

errored-StoresError :
    (env : Env) (p : Payment) (started : Time) (e : Error) (w : World)
    → StoresError env p e w (charge_errored env p started e w)
unfolding charge_errored now
errored-StoresError env p started e w =
    let a : Attempt =
      failed_attempt (blank p.id GatewayOperation.charge "" (env.clock w.tick -ℤ started)) e in
    let v : World = (record_attempt env a (advance w)).1 in
    StoresError-from env p e w v (charge_errored env p started e w)
      ((record_attempt-db env a).at (advance w))
      (subst (StoresError env p e v)
        (sym (record_attempt-then env a (charge_failed env p e) (advance w)))
        (charge_failed-StoresError env p e v))

-- When the gateway returned an error other than INVALID_INPUT, the creation ends in an error, and what
-- it did to the tables is one save: of the payment as it was when the charge may have been taken, and
-- of the payment marked as failed otherwise.
pub answered-StoresError :
    (env : Env) (p : Payment) (started : Time) (e : Error) (w : World)
    → is_code e Code.invalid_input ≡ false
    → StoresError env p e w (answered env p started (err e) w)
unfolding answered
answered-StoresError env p started e w accepted =
    subst (λ b. StoresError env p e w ((if b then raise e else charge_errored env p started e) w))
      (sym accepted) (errored-StoresError env p started e w)
