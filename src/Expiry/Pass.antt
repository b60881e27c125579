-- ===== src/Expiry/Pass.antt =====
-- A whole pass of the expiry job, RunOnce of expiry_job.go.
use payment_module.Common.{inl, inr, ◌⊎◌, ap, ◌∙◌, ◌≡◌, refl, List, [], ◌∷◌, ℕ}
use payment_module.Errors.{Result, ok, err}
use payment_module.Domain.Types.{Payment}
use payment_module.Command.World.{attempt, ◌>>◌, World, Env, ◌>>◌}
use payment_module.Command.Calls.{find_expired}
use payment_module.Command.Frame.{
  Leaves-bind, Leaves-attempt, Leaves, sent_of, sent_rules, Leaves-attempt,
}
use payment_module.Command.Succeeds.{Succeeds-bind, Succeeds-attempt, Succeeds, success_rules}
use payment_module.Command.Locked.{Tick, release}
use payment_module.Command.LockedPasses.{Ran, Skipped, locked-Runs}
use payment_module.Expiry.Job.{
  expiry_lock_key, mark_and_save, expire_one, report, expire_each, expire_found, expire_batch,
  run_once,
}

module _ (env : Env) where
  find_expired-sent : (limit : ℕ) → Leaves sent_of (find_expired env limit)
  unfolding find_expired
  find_expired-sent limit = record { at = λ w. refl }

  mark_and_save-sent : (p : Payment) → Leaves sent_of (mark_and_save env p)
  unfolding mark_and_save
  mark_and_save-sent p = search sent_rules depth 8

  expire_one-sent : (p : Payment) → Leaves sent_of (expire_one env p)
  unfolding expire_one
  expire_one-sent p = search (sent_rules, mark_and_save-sent)

  report-sent : (r : Result (Unit {0})) → Leaves sent_of (report env r)
  unfolding report
  report-sent (ok _) = search sent_rules
  report-sent (err e) = search sent_rules

  report-Succeeds : (r : Result (Unit {0})) → Succeeds (report env r)
  unfolding report
  report-Succeeds (ok _) = search success_rules
  report-Succeeds (err e) = search success_rules

  expire_each-sent : (ps : List Payment) → Leaves sent_of (expire_each env ps)
  unfolding expire_each
  expire_each-sent [] = search sent_rules
  expire_each-sent (p ∷ ps) =
      Leaves-bind sent_of (attempt (expire_one env p)) (λ r. report env r >> expire_each env ps)
        (Leaves-attempt sent_of (expire_one env p) (expire_one-sent p))
        λ r.
          Leaves-bind sent_of (report env r) (λ _. expire_each env ps) (report-sent r)
            λ _. expire_each-sent ps

  expire_each-Succeeds : (ps : List Payment) → Succeeds (expire_each env ps)
  unfolding expire_each
  expire_each-Succeeds [] = search success_rules
  expire_each-Succeeds (p ∷ ps) =
      Succeeds-bind (attempt (expire_one env p)) (λ r. report env r >> expire_each env ps)
        (Succeeds-attempt (expire_one env p))
        λ r.
          Succeeds-bind (report env r) (λ _. expire_each env ps) (report-Succeeds r)
            λ _. expire_each-Succeeds ps

  expire_found-sent : (r : Result (List Payment)) → Leaves sent_of (expire_found env r)
  unfolding expire_found
  expire_found-sent (ok ps) = expire_each-sent ps
  expire_found-sent (err e) = search sent_rules

  expire_found-Succeeds : (r : Result (List Payment)) → Succeeds (expire_found env r)
  unfolding expire_found
  expire_found-Succeeds (ok ps) = expire_each-Succeeds ps
  expire_found-Succeeds (err e) = search success_rules

  expire_batch-sent : Leaves sent_of (expire_batch env)
  unfolding expire_batch
  expire_batch-sent = search (sent_rules, find_expired-sent, expire_found-sent)

  expire_batch-Succeeds : Succeeds (expire_batch env)
  unfolding expire_batch
  expire_batch-Succeeds = search (success_rules, expire_found-Succeeds)

  run_once-sent :
      (t : Tick) (w : World)
      → Ran env expiry_lock_key (expire_batch env) t w (run_once env t w)
        ⊎ Skipped expiry_lock_key t w (run_once env t w)
      → (run_once env t w).1.sent ≡ w.sent
  unfolding release
  run_once-sent t w (inl r) =
      ap (λ v. v.sent) r.as_pass
      ∙ expire_batch-sent.at (record w { cache = (expiry_lock_key, "1") ∷ t.elsewhere w.cache })
  run_once-sent t w (inr s) = ap (λ r. r.1.sent) s.idle

-- RunOnce of the expiry job makes its pass when SetNX does not fail and the lock is free, ends without an
-- error whatever fails in it, and leaves the lock free unless its deletion fails; only when SetNX fails
-- or the lock is held does nothing happen. In no case is a gateway asked for anything.
pub run_once-Ran :
    (env : Env) (t : Tick) (w : World)
    → (Ran env expiry_lock_key (expire_batch env) t w (run_once env t w)
        ⊎ Skipped expiry_lock_key t w (run_once env t w))
      × ((run_once env t w).1.sent ≡ w.sent)
unfolding run_once
run_once-Ran env t w =
    let outcome =
      locked-Runs env expiry_lock_key (expire_batch env) (expire_batch-Succeeds env) t w in
    (outcome, run_once-sent env t w outcome)
