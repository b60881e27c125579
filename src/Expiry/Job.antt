-- ===== src/Expiry/Job.antt =====
-- Run, RunOnce and expireOne of expiry_job.go.
use payment_module.Common.{ℕ, String, Bool, false, Option, none, some, List, [], ◌∷◌, if◌then◌else◌}
use payment_module.Common.Int.{ltb_ℤ}
use payment_module.Errors.{Result, ok, err}
use payment_module.Domain.Types.{Time, Payment}
use payment_module.Domain.Aggregate.{mark_expired}
use payment_module.Command.Locked.{Tick, locked, each_tick}
use payment_module.Command.World.{Env, Action, lift, attempt, done, complain, ◌>>=◌, ◌>>◌}
use payment_module.Command.Calls.{now, find_expired, save, drop_cached}

abbrev pub expiry_lock_key : String
expiry_lock_key = "lock:expiry-job"

abbrev pub expiry_batch : ℕ
expiry_batch = 100

-- p.ExpiredAt != nil && p.ExpiredAt.After(now)
abbrev pub expires_later : Option Time → Time → Bool
expires_later none at = false
expires_later (some t) at = ltb_ℤ at t

module _ (env : Env) where
  unfoldable pub mark_and_save : Payment → Action (Unit {0})
  mark_and_save p = do
    at ← now env
    q ← lift (mark_expired at p)
    stored ← save env q
    drop_cached env stored

  unfoldable pub expire_one : Payment → Action (Unit {0})
  unfolding mark_and_save
  expire_one p = do at ← now env; if expires_later p.expired_at at then done else mark_and_save p

  unfoldable pub report : Result (Unit {0}) → Action (Unit {0})
  report (ok _) = done
  report (err e) = complain "expiry job: expire failed"

  unfoldable pub expire_each : List Payment → Action (Unit {0})
  unfolding report
  expire_each [] = done
  expire_each (p ∷ ps) = do r ← attempt (expire_one p); report r; expire_each ps

  unfoldable pub expire_found : Result (List Payment) → Action (Unit {0})
  expire_found (ok ps) = expire_each ps
  expire_found (err e) = complain "expiry job: find expired failed"

  unfoldable pub expire_batch : Action (Unit {0})
  unfolding expire_found
  expire_batch = do found ← attempt (find_expired env expiry_batch); expire_found found

  unfoldable pub run_once : Tick → Action (Unit {0})
  unfolding expire_batch
  run_once = locked env expiry_lock_key expire_batch

  unfoldable pub run : List Tick → Action (Unit {0})
  unfolding run_once
  run = each_tick run_once
