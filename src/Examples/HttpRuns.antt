-- ===== src/Examples/HttpRuns.antt =====
-- Runs of the HTTP handlers over a cache that is an association list.
use payment_module.Common.Int32
use payment_module.Store.Rows.{to_row}
use payment_module.Store.Queries.{
  insert_payment, has_reference, has_payment, last_event_sequence, insert_payment_event,
  has_sequence,
}
use payment_module.Store.Save.{saved}
use payment_module.Store.Find.{select}
use payment_module.Command.Calls.{
  now, fresh_uuid, find_by_reference, create_transaction, record_attempt,
}
use payment_module.Common.Strings.{to_upper, trim_space, is_space, trim_left, trim_right}
use payment_module.Domain.Method.{parse_method, method_of}
use payment_module.Domain.Types.{new_money}
use payment_module.Http.Tenants.{callers_apart}
use payment_module.Http.Auth.{caller_auth}
use payment_module.Http.Keys.{parse_hashes}
use payment_module.Command.Create.{
  CreatePaymentResult, build, require_unused, chargeable_gateway, charge_request, answered,
  conclude, stored_charge, finish_at_once,
}
use Prim.Native.Char.{code}
use Prim.Native.String.{[] as end_of_text, ◌∷◌ as ◌:>◌}
use payment_module.Common.{
  zero, ◌==◌, ◌&&◌, Bool, inr, ◌≡◌, refl, ℕ, String, some, none, true, false, [], ◌∷◌, List, Option,
  eq_iff, arith, if◌then◌else◌, inl, ◌∙◌, sym, ap, Bool, suc, Bool-cases, str_eq,
}
use payment_module.Common.Int.{pos}
use payment_module.Errors.{Result, ok, err, not_found, plain}
use payment_module.Ports.Cache.{reference_cache_key, Cache}
use payment_module.Ports.Cache
use payment_module.Store.Save
use payment_module.Store.Find
use payment_module.Command.Calls
use payment_module.Domain.Aggregate
use payment_module.Domain.Aggregate.{mark_pending, mark_completed, peek_events}
use payment_module.Http.Idempotency.{
  Client, IdempotencyService, IdempotencyRecord, State, Relies, IdempotencyOutcome, bare, begin,
  complete, idempotency_key,
}
use payment_module.Http.Payments.{
  Codec, CreatePaymentRequest, create_payment, request_key, request_fingerprint, create_command,
  created,
}
use payment_module.Http.Replay.{
  running_request_excludes, RanAndStored, replayed, stored_request_replays,
}
use payment_module.Command.World.{World}
use payment_module.Command.Create
use payment_module.Examples.Gateways.{env, nowhere, charge_result}

-- The cache server: its entries are records, whose texts are their own.
abbrev Entries : Type 0
Entries = List (String × String)

abbrev found : Option String → Result String
found none = err (not_found "cache miss")
found (some v) = ok v

abbrev claim : Option String → String → String → Entries → Result Bool × Entries
claim none k v c = (ok true, (k, v) ∷ c)
claim (some w) k v c = (ok false, c)

abbrev client : Client Entries
client = record {
  get = λ k c. found (Cache.get k c);
  set = λ k v ttl c. (ok tt, (k, v) ∷ c);
  set_nx = λ k v ttl c. claim (Cache.get k c) k v c;
  delete = λ k c. (ok tt, Cache.delete k c);
}

-- A claim, or a finished request with the body 7, as a text.
abbrev encoded : State → String → ℕ → List ℕ → Result String
encoded State.processing h zero [] = ok ("p" :> h)
encoded State.done h n (b ∷ []) =
    if n == 201 && b == 7 then ok ("d" :> h) else err (plain "unsupported")
encoded _ h n body = err (plain "unsupported")

abbrev decoded : String → Option IdempotencyRecord
decoded end_of_text = none
decoded (c :> h) =
    if code c == b'p'
    then some (record { state = State.processing; request_hash = h; status = 0; body = [] })
    else some (record { state = State.done; request_hash = h; status = 201; body = 7 ∷ [] })

abbrev service : IdempotencyService Entries
service = record {
  cache = client;
  ttl = pos 100;
  marshal = λ rec. encoded rec.state rec.request_hash rec.status rec.body;
  unmarshal = decoded;
}

decoded-encoded :
    (st : State) (h : String) (n : ℕ) (body : List ℕ) (v : String)
    → encoded st h n body ≡ ok v
    → decoded v ≡ some (record { state = st; request_hash = h; status = n; body = body })
decoded-encoded State.processing h zero [] v e =
    let same : "p" :> h ≡ v = cc e in ap decoded (sym same)
decoded-encoded State.processing h (suc n) [] v e = ground (arith, e)
decoded-encoded State.processing h zero (b ∷ bs) v e = ground (arith, e)
decoded-encoded State.processing h (suc n) (b ∷ bs) v e = ground (arith, e)
decoded-encoded State.done h n [] v e = ground (arith, e)
decoded-encoded State.done h n (b ∷ []) v e = elim (Bool-cases (n == 201 && b == 7)) [
  | inl known ↦
      let same : "d" :> h ≡ v = ground (arith, known, e) in
      ap decoded (sym same)
      ∙ ap
          (λ (t : ℕ × ℕ).
            some (record { state = State.done; request_hash = h; status = t.0; body = t.1 ∷ [] }))
          (ground (arith, known))
  | inr unknown ↦ ground (arith, unknown, e)
]
decoded-encoded State.done h n (b ∷ d ∷ bs) v e = ground (arith, e)

abbrev is_found : Result String → Bool
is_found (ok v) = true
is_found (err e) = false

get-set : (k v : String) (c : Entries) → found (Cache.get k ((k, v) ∷ c)) ≡ ok v
unfolding Cache.get
get-set k v c = ground (arith, eq_iff k k)

claim-held :
    (o : Option String) (k v w : String) (c : Entries)
    → found o ≡ ok v
    → claim o k w c ≡ (ok false, c)
claim-held none k v w c e = ground (arith, e)
claim-held (some x) k v w c e = refl

claim-taken :
    (o : Option String) (k v : String) (c d : Entries)
    → claim o k v c ≡ (ok true, d)
    → d ≡ (k, v) ∷ c
claim-taken none k v c d e = ground (arith, e)
claim-taken (some x) k v c d e = ground (arith, e)

service-Relies : (key : String) → Relies service key
service-Relies key = record {
  reads_set = λ v c d e.
      ap (λ x. found (Cache.get key x)) (sym (ap (λ (t : Result (Unit {0}) × Entries). t.1) e))
      ∙ get-set key v c;
  holds = λ v w t c present. inl (claim-held (Cache.get key c) key v w c present);
  reads_claim = λ v t c d e.
      ap (λ x. found (Cache.get key x)) (claim-taken (Cache.get key c) key v c d e)
      ∙ get-set key v c;
  round_trips = λ rec v e. decoded-encoded rec.state rec.request_hash rec.status rec.body v e;
}

abbrev codec : Codec
codec = record {
  sha256_hex = λ s. "hash";
  marshal_request = λ req. "request";
  marshal_response = λ resp. 7 ∷ [];
  marshal_cancelled = λ id status. 8 ∷ [];
  format_rfc3339 = λ t. "time";
}

abbrev request : CreatePaymentRequest
request = record {
  amount = pos 100;
  bank_code = none;
  card_token = some "token";
  currency = "IDR";
  customer_email = "";
  customer_external_id = none;
  customer_name = "Ani";
  customer_phone = none;
  description = none;
  expired_at = none;
  gateway_type = "midtrans";
  metadata = none;
  payment_method_type = "CARD";
  reference_id = "order-1";
  return_url = none;
}

abbrev key : String
key = request_key codec "shop" request

abbrev hash : String
hash = request_fingerprint codec request

abbrev claimed_entries : Entries
claimed_entries = (begin service key hash []).1

abbrev stored_entries : Entries
stored_entries = (complete service key hash 201 (7 ∷ []) claimed_entries).1

abbrev world_after : World
world_after = (Create.handle env (create_command "shop" request) nowhere).1

fresh_request : begin service key hash [] ≡ (ok (bare IdempotencyOutcome.new), claimed_entries)
unfolding begin Cache.get
fresh_request = refl

running_request_excludes_example :
    let t = create_payment env codec service "shop" (some request) (nowhere, claimed_entries) in
    (t.0.status ≡ 409) × (t.1 ≡ (nowhere, claimed_entries))
unfolding begin Cache.get idempotency_key
running_request_excludes_example =
    running_request_excludes env codec service "shop" request request (service-Relies key) nowhere
      [] claimed_entries claimed_entries (bare IdempotencyOutcome.in_flight) refl fresh_request refl

abbrev result_or : Result CreatePaymentResult → CreatePaymentResult
result_or (ok r) = r
result_or (err e) = charge_result

abbrev made : CreatePaymentResult
made = result_or (Create.handle env (create_command "shop" request) nowhere).0

creates : Create.handle env (create_command "shop" request) nowhere ≡ (ok made, world_after)
unfolding Create.handle create_command build new_money parse_method to_upper trim_space is_space
    trim_left trim_right method_of now fresh_uuid Aggregate.new require_unused find_by_reference
    Find.find_by_reference select chargeable_gateway create_transaction charge_request answered
    record_attempt conclude stored_charge finish_at_once mark_pending mark_completed Calls.save
    Save.save Save.saved Save.save_transaction Save.write_payment_row Save.write_refunds
    Save.write_events Save.write_outbox_rows Save.to_outbox_events Save.is_new_payment
    insert_payment has_reference has_payment last_event_sequence insert_payment_event has_sequence
    peek_events to_row Int32.add
creates = refl

stores : complete service key hash 201 (7 ∷ []) claimed_entries ≡ (ok tt, stored_entries)
unfolding complete
stores = refl

ran : RanAndStored env codec service "shop" request nowhere world_after [] stored_entries made
ran = record {
  middle = claimed_entries;
  claims = fresh_request;
  creates = creates;
  stores = stores;
}

stored_request_replays_example :
    (create_payment env codec service "shop" (some request) (nowhere, [])
      ≡ (created env codec made, (world_after, stored_entries)))
    × (create_payment env codec service "shop" (some request) (nowhere, stored_entries)
        ≡ (replayed env codec made, (nowhere, stored_entries)))
unfolding begin Cache.get idempotency_key complete
stored_request_replays_example =
    stored_request_replays env codec service "shop" request (service-Relies key) nowhere world_after
      nowhere [] stored_entries stored_entries made
      (record { outcome = IdempotencyOutcome.replay; status = 201; body = 7 ∷ [] }) ran refl

abbrev digest : String
digest = "0123456789abcdef0123456789abcdef0123456789abcdef0123456789abcdef"

abbrev hash_key : String → String
hash_key s = digest

abbrev shop : String
shop = "shop"

abbrev order : String
order = "order-1"

callers_apart_example : (shop ≡ shop) × (order ≡ order)
unfolding parse_hashes caller_auth trim_space
callers_apart_example =
    callers_apart (λ s. s) (λ s. s) hash_key str_eq
      "shop:0123456789abcdef0123456789abcdef0123456789abcdef0123456789abcdef"
      ((digest, "shop") ∷ []) "Bearer k" "" "Bearer k" shop shop shop order order refl refl refl
      refl
