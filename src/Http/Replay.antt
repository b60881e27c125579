-- ===== src/Http/Replay.antt =====
-- CreatePayment of payment_handler.go, for requests with the caller and the reference of an earlier one.
use payment_module.Common.{
  ◌≡◌, refl, sym, ◌∙◌, ap, ℕ, String, some, List, [], ◌∷◌, arith, str_eq, eq_iff, if-either, not,
}
use mathlib.Core.Path.{subst}
use payment_module.Errors.{ok}
use payment_module.Command.World.{World, Env}
use payment_module.Command.Create
use payment_module.Command.Create.{CreatePaymentResult}
use payment_module.Http.Replies.{Reply, content, json_type, write_error}
use payment_module.Http.Idempotency.{
  IdempotencyService, IdempotencyResult, IdempotencyOutcome, Relies, begin, complete, bare,
  done_record, claim_record, judge_record,
}
use payment_module.Http.Claims.{begin-present, begin-claimed, complete-present}
use payment_module.Http.Payments.{
  Codec, CreatePaymentRequest, create_payment, create_command, request_key, request_fingerprint,
  response_body, created, replay_header, decide, run_create, finish, keep,
}

-- The reply that repeats a stored response.
abbrev pub replayed : Env → Codec → CreatePaymentResult → Reply
replayed env codec result = record {
  status = 201;
  header = replay_header ∷ json_type ∷ [];
  body = content (response_body env codec result);
}

module _ {S : Type 0} (env : Env) (codec : Codec) (service : IdempotencyService S) (caller : String)
    (req : CreatePaymentRequest) where
  -- The request claimed its key, the payment was created, and the response was stored.
  pub record RanAndStored (w w' : World) (c c' : S) (result : CreatePaymentResult) : Type 0 where
    pub middle : S
    pub claims :
        begin service (request_key codec caller req) (request_fingerprint codec req) c
        ≡ (ok (bare IdempotencyOutcome.new), middle)
    pub creates : Create.handle env (create_command caller req) w ≡ (ok result, w')
    pub stores :
        complete service
          (request_key codec caller req)
          (request_fingerprint codec req)
          201
          (response_body env codec result)
          middle
        ≡ (ok tt, c')

  ran_reply :
      (w w' : World) (c c' : S) (result : CreatePaymentResult)
      → RanAndStored w w' c c' result
      → create_payment env codec service caller (some req) (w, c)
        ≡ (created env codec result, (w', c'))
  unfolding create_payment decide run_create finish keep
  ran_reply w w' c c' result h = rw (h.claims, h.creates, h.stores) refl

  decided :
      (v : World) (c : S) (result : CreatePaymentResult)
      → decide env codec service caller req
          (ok (record {
            outcome = IdempotencyOutcome.replay;
            status = 201;
            body = response_body env codec result;
          }))
          (v, c)
        ≡ (replayed env codec result, (v, c))
  unfolding decide
  decided v c result = refl

  judge_record-same :
      (hash : String) (status : ℕ) (body : List ℕ)
      → judge_record service hash (some (done_record service hash status body))
        ≡ record { outcome = IdempotencyOutcome.replay; status = status; body = body }
  unfolding judge_record
  judge_record-same hash status body = ground (arith, eq_iff hash hash)

  replay_reply :
      (v : World) (c d : S) (result : CreatePaymentResult) (r : IdempotencyResult)
      → begin service (request_key codec caller req) (request_fingerprint codec req) c ≡ (ok r, d)
      → r ≡ record {
        outcome = IdempotencyOutcome.replay;
        status = 201;
        body = response_body env codec result;
      }
      → d ≡ c
      → create_payment env codec service caller (some req) (v, c)
        ≡ (replayed env codec result, (v, c))
  unfolding create_payment
  replay_reply v c d result r e same kept =
      ap (λ t. decide env codec service caller req t.0 (v, t.1))
        (e
          ∙ ap (λ q. (ok q, d)) same
          ∙ ap
              (λ x. (
                ok (record {
                  outcome = IdempotencyOutcome.replay;
                  status = 201;
                  body = response_body env codec result;
                }),
                x,
              ))
              kept)
      ∙ decided v c result

  -- Over a cache that keeps its promises: a creation that claimed its key, succeeded and stored its
  -- response answers 201; the same request then, whatever happened to the rest of the world, gets the
  -- same status and body, marked as a replay, and changes nothing, unless the cache cannot be asked.
  pub stored_request_replays :
      Relies service (request_key codec caller req)
      → (w w' v : World) (c c' d : S) (result : CreatePaymentResult) (r : IdempotencyResult)
      → RanAndStored w w' c c' result
      → begin service (request_key codec caller req) (request_fingerprint codec req) c' ≡ (ok r, d)
      → (create_payment env codec service caller (some req) (w, c)
          ≡ (created env codec result, (w', c')))
        × (create_payment env codec service caller (some req) (v, c')
            ≡ (replayed env codec result, (v, c')))
  stored_request_replays relies w w' v c c' d result r ran again =
      let hash : String = request_fingerprint codec req in
      let (text, present, reads) =
        complete-present service (request_key codec caller req) relies hash 201
          (response_body env codec result) ran.middle c' ran.stores in
      let (judged, kept) =
        begin-present service (request_key codec caller req) relies hash text
          (done_record service hash 201 (response_body env codec result)) c' d r present reads
          again in
      (
        ran_reply w w' c c' result ran,
        replay_reply v c' d result r again
            (judged ∙ judge_record-same hash 201 (response_body env codec result)) kept,
      )

module _ {S : Type 0} (env : Env) (codec : Codec) (service : IdempotencyService S) (caller : String)
    (req other : CreatePaymentRequest) where
  abbrev Refuses : World × S → IdempotencyResult → Type 0
  Refuses at r =
      ((decide env codec service caller other (ok r) at).0.status ≡ 409)
      × ((decide env codec service caller other (ok r) at).1 ≡ at)

  refused :
      (hash : String) (at : World × S)
      → Refuses at (
          judge_record service (request_fingerprint codec other) (some (claim_record service hash)))
  unfolding decide judge_record write_error
  refused hash at =
      if-either (Refuses at) (not (str_eq hash (request_fingerprint codec other)))
        (bare IdempotencyOutcome.mismatch) (bare IdempotencyOutcome.in_flight) (λ e. (refl, refl))
        (λ e. (refl, refl))

  -- Over a cache that keeps its promises: while the claim of a request is held, any request with the
  -- same key is answered with 409 and changes nothing, unless the cache cannot be asked.
  pub running_request_excludes :
      Relies service (request_key codec caller req)
      → (v : World) (c c' d : S) (r : IdempotencyResult)
      → request_key codec caller other ≡ request_key codec caller req
      → begin service (request_key codec caller req) (request_fingerprint codec req) c
        ≡ (ok (bare IdempotencyOutcome.new), c')
      → begin service (request_key codec caller other) (request_fingerprint codec other) c'
        ≡ (ok r, d)
      → let t = create_payment env codec service caller (some other) (v, c') in
        (t.0.status ≡ 409) × (t.1 ≡ (v, c'))
  unfolding create_payment
  running_request_excludes relies v c c' d r same first second =
      let (text, present, reads) =
        begin-claimed service (request_key codec caller req) relies (request_fingerprint codec req)
          c c' first in
      let (judged, kept) =
        begin-present service (request_key codec caller other)
          (subst (Relies service) (sym same) relies) (request_fingerprint codec other) text
          (claim_record service (request_fingerprint codec req)) c' d r
          (subst (λ k. service.cache.get k c' ≡ ok text) (sym same) present) reads second in
      let begun : begin service (request_key codec caller other) (request_fingerprint codec other)
            c'
          ≡ (
            ok (
                judge_record service (request_fingerprint codec other)
                  (some (claim_record service (request_fingerprint codec req)))),
            c',
          ) =
        second
        ∙ ap (λ q. (ok q, d)) judged
        ∙ ap
            (λ x. (
              ok (
                  judge_record service (request_fingerprint codec other)
                    (some (claim_record service (request_fingerprint codec req)))),
              x,
            ))
            kept in
      subst
        (λ t.
          let at = decide env codec service caller other t.0 (v, t.1) in
          (at.0.status ≡ 409) × (at.1 ≡ (v, c')))
        (sym begun) (refused (request_fingerprint codec req) (v, c'))
