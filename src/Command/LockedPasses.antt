-- ===== src/Command/LockedPasses.antt =====
-- Passes under a lock of the cache: Reconciler.Run of reconcile.go, and postgres/expiry_job.go.
use mathlib.Core.Path.{subst}
use payment_module.Common.{
  ◌≡◌, refl, sym, ap, String, Bool, true, false, none, some, List, [], ◌∷◌, ◌⊎◌, inl, inr,
  Option-cases, if◌then◌else◌,
}
use payment_module.Errors.{Error, Result, ok}
use payment_module.Ports.Cache.{get, delete, get-delete}
use payment_module.Command.World.{Env, World, Action, continue, ◌>>◌}
use payment_module.Command.Succeeds.{Succeeds, Succeeds-pure, Succeeds-bind}
use payment_module.Command.Locked.{Tick, meet, set_nx, release, guarded, locked, each_tick}

-- The lock is free in the world, or the deletion that the surroundings were asked for before failed.
abbrev pub Freed : Env → String → World → World → Type 0
Freed env key before after =
    (get key after.cache ≡ none) ⊎ ((env.cache_reaches before.tick).0 ≡ false)

-- The lock could not be asked for, or its key was there; and nothing happened but what others did to the
-- cache.
pub record Skipped (key : String) (t : Tick) (w : World) (r : Result (Unit {0}) × World)
    : Type 0 where
  pub why :
      ((e : Error) × (t.fault ≡ some e)) ⊎ ((v : String) × (get key (t.elsewhere w.cache) ≡ some v))
  pub idle : r ≡ (ok tt, meet t w)

module _ (env : Env) (key : String) (pass : Action (Unit {0})) where
  -- The lock could be asked for and was free, and the pass ran under it, ended without an error, and
  -- gave the lock back.
  pub record Ran (t : Tick) (w : World) (r : Result (Unit {0}) × World) : Type 0 where
    pub no_fault : t.fault ≡ none
    pub was_free : get key (t.elsewhere w.cache) ≡ none
    pub ends : r.0 ≡ ok tt
    pub as_pass :
        r.1 ≡ (release env key (pass (record w { cache = (key, "1") ∷ t.elsewhere w.cache })).1).1
    pub freed : Freed env key (pass (record w { cache = (key, "1") ∷ t.elsewhere w.cache })).1 r.1

  released :
      (b : Bool) (w : World)
      → (env.cache_reaches w.tick).0 ≡ b
      → Freed env key w (release env key w).1
  unfolding release
  released true w e = inl (
      subst (λ b. get key (if b then delete key w.cache else w.cache) ≡ none) (sym e)
        (get-delete key w.cache))
  released false w e = inr e

  module _ (pass-Succeeds : Succeeds pass) where
    passed : (w : World) → (pass >> release env key) w ≡ release env key (pass w).1
    passed w =
        subst (λ r. continue r (λ _. release env key) (pass w).1 ≡ release env key (pass w).1)
          (sym (pass-Succeeds.at w).1) refl

    taken :
        (t : Tick) (w : World)
        → t.fault ≡ none
        → get key (t.elsewhere w.cache) ≡ none
        → locked env key pass t w
          ≡ release env key (pass (record w { cache = (key, "1") ∷ t.elsewhere w.cache })).1
    unfolding locked guarded set_nx
    taken t w sound free =
        rw (sound, free) (passed (record w { cache = (key, "1") ∷ t.elsewhere w.cache }))

    held :
        (t : Tick) (w : World) (v : String)
        → t.fault ≡ none
        → get key (t.elsewhere w.cache) ≡ some v
        → Skipped key t w (locked env key pass t w)
    unfolding locked guarded set_nx
    held t w v sound there = record { why = inr (v, there); idle = rw (sound, there) refl }

    faulty :
        (t : Tick) (w : World) (e : Error)
        → t.fault ≡ some e
        → Skipped key t w (locked env key pass t w)
    unfolding locked guarded set_nx
    faulty t w e fault = record { why = inl (e, fault); idle = rw fault refl }

    ran :
        (t : Tick) (w : World)
        → t.fault ≡ none
        → get key (t.elsewhere w.cache) ≡ none
        → Ran t w (locked env key pass t w)
    unfolding release
    ran t w sound free =
        let after : World = (pass (record w { cache = (key, "1") ∷ t.elsewhere w.cache })).1 in
        let same = taken t w sound free in
        record {
          no_fault = sound;
          was_free = free;
          ends = ap (λ r. r.0) same;
          as_pass = ap (λ r. r.1) same;
          freed =
              subst (Freed env key after) (sym (ap (λ r. r.1) same))
                (released (env.cache_reaches after.tick).0 after refl);
        }

    -- A pass under the lock runs when the lock is free, and only then; it ends without an error.
    pub locked-Runs :
        (t : Tick) (w : World)
        → Ran t w (locked env key pass t w) ⊎ Skipped key t w (locked env key pass t w)
    locked-Runs t w = elim (Option-cases t.fault) [
      | inl sound ↦ elim (Option-cases (get key (t.elsewhere w.cache))) [
        | inl free ↦ inl (ran t w sound free)
        | inr (v, there) ↦ inr (held t w v sound there)
      ]
      | inr (e, fault) ↦ inr (faulty t w e fault)
    ]

    locked-Succeeds : (t : Tick) → Succeeds (locked env key pass t)
    locked-Succeeds t = record {
      at =
          λ w. elim (locked-Runs t w) [ inl r ↦ (tt, r.ends) | inr s ↦ (tt, ap (λ r. r.0) s.idle) ];
    }

    pub each_tick-Succeeds : (ticks : List Tick) → Succeeds (each_tick (locked env key pass) ticks)
    unfolding each_tick
    each_tick-Succeeds [] = Succeeds-pure tt
    each_tick-Succeeds (t ∷ ticks) =
        Succeeds-bind (locked env key pass t) (λ _. each_tick (locked env key pass) ticks)
          (locked-Succeeds t) λ _. each_tick-Succeeds ticks
