-- ===== src/Command/Locked.antt =====
-- The lock of the cache under which Reconciler.Run (reconcile.go) and ExpiryJob.RunOnce
-- (postgres/expiry_job.go) make their passes, and the ticks of their Run.
use payment_module.Common.{
  String, Bool, Option, none, some, List, [], ◌∷◌, if◌then◌else◌, suc, false, true,
}
use payment_module.Errors.{Error, Result, ok, err}
use payment_module.Ports.Cache.{Cache, get, delete}
use payment_module.Command.World.{Env, World, Action, done, ◌>>◌}

-- A tick of Run: what became of the cache since the last pass, where other replicas take and release
-- locks and entries expire, and the fault of SetNX, if any.
pub record Tick : Type 0 where
  pub elsewhere : Cache → Cache
  pub fault : Option Error

abbrev put_new : String → Option String → Cache → Result Bool × Cache
put_new key (some v) c = (ok false, c)
put_new key none c = (ok true, (key, "1") ∷ c)

abbrev pub meet : Tick → World → World
meet t w = record w { cache = t.elsewhere w.cache }

-- The result is an error, or whether the key was set.
unfoldable pub set_nx : Option Error → String → Cache → Result Bool × Cache
set_nx (some e) key c = (err e, c)
set_nx none key c = put_new key (get key c) c

module _ (env : Env) where
  -- `_ = cache.Delete(ctx, key)`: an entry whose deletion fails is left to expire.
  unfoldable pub release : String → Action (Unit {0})
  release key w = (
    ok tt,
    record w {
      cache = (if (env.cache_reaches w.tick).0 then delete key w.cache else w.cache);
      tick = suc w.tick;
    },
  )

  unfoldable pub guarded : String → Action (Unit {0}) → Result Bool → Action (Unit {0})
  unfolding release
  guarded key pass (err e) = done
  guarded key pass (ok false) = done
  guarded key pass (ok true) = do pass; release key

  unfoldable pub locked : String → Action (Unit {0}) → Tick → Action (Unit {0})
  unfolding guarded set_nx
  locked key pass t w =
      let (acquired, cache) = set_nx t.fault key (t.elsewhere w.cache) in
      guarded key pass acquired (record w { cache = cache })

-- The ticks are those until the context ends.
unfoldable pub each_tick : (Tick → Action (Unit {0})) → List Tick → Action (Unit {0})
each_tick f [] = done
each_tick f (t ∷ ticks) = do f t; each_tick f ticks
