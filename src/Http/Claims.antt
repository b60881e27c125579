-- ===== src/Http/Claims.antt =====
-- Begin, Complete and Release of middleware/idempotency.go, one after the other.
use payment_module.Common.{
  ◌≡◌, refl, sym, ◌∙◌, ap, true, false, ℕ, String, Bool, Option, none, some, List, arith, inl, inr,
  ◌≢◌,
}
use payment_module.Errors.{Result, ok, err}
use payment_module.Http.Idempotency.{
  IdempotencyService, IdempotencyRecord, IdempotencyResult, IdempotencyOutcome, Relies, begin,
  complete, store, claim_with, claimed, read_claim, judge_record, bare, done_record, claim_record,
  min, processing_ttl,
}

module _ {S : Type 0} (s : IdempotencyService S) (key : String) (relies : Relies s key) where
  claimed-present :
      (hash v claim : String) (rec : IdempotencyRecord) (c d : S) (r : IdempotencyResult)
      → s.cache.get key c ≡ ok v
      → s.unmarshal v ≡ some rec
      → claimed s key hash (s.cache.set_nx key claim (min processing_ttl s.ttl) c) ≡ (ok r, d)
      → (r ≡ judge_record s hash (some rec)) × (d ≡ c)
  unfolding claimed read_claim
  claimed-present hash v claim rec c d r present reads e =
      elim (relies.holds v claim (min processing_ttl s.ttl) c present) [
        | inl held ↦
            let found : (ok (judge_record s hash (some rec)), c) ≡ (ok r, d) =
              sym (
                ap (λ g. (read_claim s hash g, c)) present
                ∙ ap (λ o. (ok (judge_record s hash o), c)) reads)
              ∙ (sym (ap (claimed s key hash) held) ∙ e) in
            ground (arith, found)
        | inr (x, failed) ↦ ground (arith, e, failed)
      ]

  claim_with-present :
      (m : Result String) (hash v : String) (rec : IdempotencyRecord) (c d : S)
      (r : IdempotencyResult)
      → s.cache.get key c ≡ ok v
      → s.unmarshal v ≡ some rec
      → claim_with s key hash m c ≡ (ok r, d)
      → (r ≡ judge_record s hash (some rec)) × (d ≡ c)
  unfolding claim_with
  claim_with-present (err x) hash v rec c d r present reads e = ground (arith, e)
  claim_with-present (ok claim) hash v rec c d r present reads e =
      claimed-present hash v claim rec c d r present reads e

  -- A record that is there decides what Begin says, and stays.
  pub begin-present :
      (hash v : String) (rec : IdempotencyRecord) (c d : S) (r : IdempotencyResult)
      → s.cache.get key c ≡ ok v
      → s.unmarshal v ≡ some rec
      → begin s key hash c ≡ (ok r, d)
      → (r ≡ judge_record s hash (some rec)) × (d ≡ c)
  unfolding begin
  begin-present hash v rec c d r present reads e =
      claim_with-present (s.marshal (claim_record s hash)) hash v rec c d r present reads e

  store-present :
      (m : Result String) (rec : IdempotencyRecord) (c d : S)
      → s.marshal rec ≡ m
      → store s key m c ≡ (ok tt, d)
      → (v : String) × (s.cache.get key d ≡ ok v) × (s.unmarshal v ≡ some rec)
  unfolding store
  store-present (err x) rec c d m e = ground (arith, e)
  store-present (ok v) rec c d m e = (v, relies.reads_set v c d e, relies.round_trips rec v m)

  pub complete-present :
      (hash : String) (status : ℕ) (body : List ℕ) (c d : S)
      → complete s key hash status body c ≡ (ok tt, d)
      → (v : String) × (s.cache.get key d ≡ ok v)
        × (s.unmarshal v ≡ some (done_record s hash status body))
  unfolding complete
  complete-present hash status body c d e =
      store-present (s.marshal (done_record s hash status body)) (done_record s hash status body) c
        d refl e

  judge_record-not_new :
      (hash : String) (o : Option IdempotencyRecord)
      → (judge_record s hash o).outcome ≢ IdempotencyOutcome.new
  unfolding judge_record
  judge_record-not_new hash none e = ground (arith, e)
  judge_record-not_new hash (some rec) e = ground (arith, e)

  read_claim-not_new :
      (hash : String) (g : Result String) → read_claim s hash g ≢ ok (bare IdempotencyOutcome.new)
  unfolding read_claim
  read_claim-not_new hash (err x) e = ground (arith, e)
  read_claim-not_new hash (ok raw) e =
      judge_record-not_new hash (s.unmarshal raw) (ground (arith, e))

  claimed-new :
      (hash claim : String) (t : Result Bool × S) (d : S)
      → claimed s key hash t ≡ (ok (bare IdempotencyOutcome.new), d)
      → t ≡ (ok true, d)
  unfolding claimed
  claimed-new hash claim (err x, c) d e = ground (arith, e)
  claimed-new hash claim (ok true, c) d e = ground (arith, e)
  claimed-new hash claim (ok false, c) d e =
      absurd (read_claim-not_new hash (s.cache.get key c) (ground (arith, e)))

  claim_with-claimed :
      (m : Result String) (hash : String) (c d : S)
      → s.marshal (claim_record s hash) ≡ m
      → claim_with s key hash m c ≡ (ok (bare IdempotencyOutcome.new), d)
      → (v : String) × (s.cache.get key d ≡ ok v) × (s.unmarshal v ≡ some (claim_record s hash))
  unfolding claim_with
  claim_with-claimed (err x) hash c d m e = ground (arith, e)
  claim_with-claimed (ok v) hash c d m e = (
    v,
    relies.reads_claim v (min processing_ttl s.ttl) c d
        (claimed-new hash v (s.cache.set_nx key v (min processing_ttl s.ttl) c) d e),
    relies.round_trips (claim_record s hash) v m,
  )

  -- The claim of a request that may run is there.
  pub begin-claimed :
      (hash : String) (c d : S)
      → begin s key hash c ≡ (ok (bare IdempotencyOutcome.new), d)
      → (v : String) × (s.cache.get key d ≡ ok v) × (s.unmarshal v ≡ some (claim_record s hash))
  unfolding begin
  begin-claimed hash c d e = claim_with-claimed (s.marshal (claim_record s hash)) hash c d refl e
