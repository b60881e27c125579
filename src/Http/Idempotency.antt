-- ===== src/Http/Idempotency.antt =====
-- internal/adapter/inbound/http/middleware/idempotency.go, over the cache.Client of
-- infrastructure/cache/cache.go.
use payment_module.Common.{
  ℕ, String, ◌<>◌, Bool, true, false, not, Option, none, some, List, [], str_eq, ◌≡◌, ◌⊎◌,
  if◌then◌else◌,
}
use payment_module.Common.Int.{ℤ, pos, leb_ℤ}
use payment_module.Errors.{Error, Result, ok, err, Code, is_code, internal}

-- cache.Client. `S` is the state of the cache server; NotFound stands for a missing key.
pub record Client (S : Type 0) : Type 0 where
  pub get : String → S → Result String
  pub set : (key value : String) → (ttl : ℤ) → S → Result (Unit {0}) × S
  pub set_nx : (key value : String) → (ttl : ℤ) → S → Result Bool × S
  pub delete : String → S → Result (Unit {0}) × S

pub data State : Type 0 where
  processing done : State

pub record IdempotencyRecord : Type 0 where
  pub state : State
  pub request_hash : String
  pub status : ℕ
  pub body : List ℕ

pub data IdempotencyOutcome : Type 0 where
  new replay in_flight mismatch : IdempotencyOutcome

pub record IdempotencyResult : Type 0 where
  pub outcome : IdempotencyOutcome
  pub status : ℕ
  pub body : List ℕ

-- IdempotencyService: the cache, the time that a finished record lives, and encoding/json.
pub record IdempotencyService (S : Type 0) : Type 0 where
  pub cache : Client S
  pub ttl : ℤ
  pub marshal : IdempotencyRecord → Result String
  pub unmarshal : String → Option IdempotencyRecord

-- sha256.Sum256, printed with %x, is a parameter.
unfoldable pub idempotency_key :
    (sha256_hex : String → String) → (caller_service reference_id : String) → String
idempotency_key sha256_hex caller_service reference_id =
    "idempotency:" <> sha256_hex (caller_service <> (":" <> reference_id))

-- a minute, in nanoseconds
abbrev pub processing_ttl : ℤ
processing_ttl = pos 60000000000

abbrev pub min : ℤ → ℤ → ℤ
min a b = if leb_ℤ a b then a else b

abbrev pub bare : IdempotencyOutcome → IdempotencyResult
bare outcome = record { outcome = outcome; status = 0; body = [] }

abbrev is_done : State → Bool
is_done State.done = true
is_done State.processing = false

-- isCacheMiss; cache.ErrNotFound is what the stub client returns.
abbrev is_cache_miss : Error → Bool
is_cache_miss e = is_code e Code.not_found

module _ {S : Type 0} (s : IdempotencyService S) where
  abbrev pub claim_record : (request_hash : String) → IdempotencyRecord
  claim_record request_hash = record {
    state = State.processing;
    request_hash = request_hash;
    status = 0;
    body = [];
  }

  unfoldable pub judge_record :
      (request_hash : String) → Option IdempotencyRecord → IdempotencyResult
  judge_record request_hash none = bare IdempotencyOutcome.in_flight
  judge_record request_hash (some rec) =
      if not (str_eq rec.request_hash request_hash)
      then bare IdempotencyOutcome.mismatch
      else if is_done rec.state
      then record { outcome = IdempotencyOutcome.replay; status = rec.status; body = rec.body }
      else bare IdempotencyOutcome.in_flight

  unfoldable pub read_claim : (request_hash : String) → Result String → Result IdempotencyResult
  unfolding judge_record
  read_claim request_hash (err e) =
      if is_cache_miss e then ok (bare IdempotencyOutcome.in_flight) else err e
  read_claim request_hash (ok raw) = ok (judge_record request_hash (s.unmarshal raw))

  unfoldable pub claimed :
      (key request_hash : String) → Result Bool × S → Result IdempotencyResult × S
  unfolding read_claim
  claimed key request_hash (err e, c) = (err e, c)
  claimed key request_hash (ok true, c) = (ok (bare IdempotencyOutcome.new), c)
  claimed key request_hash (ok false, c) = (read_claim request_hash (s.cache.get key c), c)

  unfoldable pub claim_with :
      (key request_hash : String) → Result String → S → Result IdempotencyResult × S
  unfolding claimed
  claim_with key request_hash (err e) c = (err (internal "marshal idempotency record" (some e)), c)
  claim_with key request_hash (ok claim) c =
      claimed key request_hash (s.cache.set_nx key claim (min processing_ttl s.ttl) c)

  unfoldable pub begin : (key request_hash : String) → S → Result IdempotencyResult × S
  unfolding claim_with
  begin key request_hash c = claim_with key request_hash (s.marshal (claim_record request_hash)) c

  abbrev pub done_record : (request_hash : String) → (status : ℕ) → List ℕ → IdempotencyRecord
  done_record request_hash status body = record {
    state = State.done;
    request_hash = request_hash;
    status = status;
    body = body;
  }

  unfoldable pub store : String → Result String → S → Result (Unit {0}) × S
  store key (err e) c = (err (internal "marshal idempotency record" (some e)), c)
  store key (ok rec) c = s.cache.set key rec s.ttl c

  unfoldable pub complete :
      (key request_hash : String) → (status : ℕ) → List ℕ → S → Result (Unit {0}) × S
  unfolding store
  complete key request_hash status body c =
      store key (s.marshal (done_record request_hash status body)) c

  unfoldable pub release : String → S → Result (Unit {0}) × S
  release key c = s.cache.delete key c

-- What the service relies on, for one key: a value that was set, or claimed, is read back, a key that is
-- there cannot be claimed and keeps its value, and a record that was marshalled reads back as itself.
pub record Relies {S : Type 0} (s : IdempotencyService S) (key : String) : Type 0 where
  pub reads_set :
      (v : String) (c d : S) → s.cache.set key v s.ttl c ≡ (ok tt, d) → s.cache.get key d ≡ ok v
  pub holds :
      (v w : String) (t : ℤ) (c : S)
      → s.cache.get key c ≡ ok v
      → (s.cache.set_nx key w t c ≡ (ok false, c))
        ⊎ ((e : Error) × (s.cache.set_nx key w t c ≡ (err e, c)))
  pub reads_claim :
      (v : String) (t : ℤ) (c d : S)
      → s.cache.set_nx key v t c ≡ (ok true, d)
      → s.cache.get key d ≡ ok v
  pub round_trips :
      (rec : IdempotencyRecord) (v : String) → s.marshal rec ≡ ok v → s.unmarshal v ≡ some rec
