-- ===== src/Http/Payments.antt =====
-- internal/adapter/inbound/http/payment_handler.go, with the structs of openapi_gen.go that it uses.
use payment_module.Common.{
  ℕ, String, Bool, true, false, Option, none, some, List, [], ◌∷◌, is_empty, if◌then◌else◌,
}
use payment_module.Common.Int64.{Int64}
use payment_module.Errors.{Error, Result, ok, err, idempotency_conflict}
use payment_module.Json.{Members, Payload, text, end, member}
use payment_module.Domain.Status.{status_text}
use payment_module.Domain.Types.{Time, Uuid}
use payment_module.Ports.Gateway.{NextAction, NextActionType}
use payment_module.Command.World.{World, Env, warn}
use payment_module.Command.Create
use payment_module.Command.Create.{CreatePaymentCommand, CreatePaymentResult}
use payment_module.Command.Cancel.{handle_cancel}
use payment_module.Http.Replies.{
  Reply, content, json_type, write_error, invalid_json, invalid_payment_id,
}
use payment_module.Http.Idempotency.{
  IdempotencyService, IdempotencyResult, IdempotencyOutcome, idempotency_key, begin, complete,
  release,
}

pub record CreatePaymentRequest : Type 0 where
  pub amount : Int64
  pub bank_code : Option String
  pub card_token : Option String
  pub currency : String
  pub customer_email : String
  pub customer_external_id : Option String
  pub customer_name : String
  pub customer_phone : Option String
  pub description : Option String
  pub expired_at : Option Time
  pub gateway_type : String
  pub metadata : Option Payload
  pub payment_method_type : String
  pub reference_id : String
  pub return_url : Option String

-- NextAction of openapi_gen.go
pub record NextActionView : Type 0 where
  pub bank : Option String
  pub expires_at : Option Time
  pub qr_image_url : Option String
  pub qr_string : Option String
  pub redirect_url : Option String
  pub type : NextActionType
  pub va_number : Option String

pub record CreatePaymentResponse : Type 0 where
  pub amount : Int64
  pub created_at : Time
  pub currency : String
  pub next_action : NextActionView
  pub payment_id : String
  pub payment_instructions : Option Members
  pub reference_id : String
  pub status : String

-- The library calls: sha256.Sum256 in hex, the JSON of requests and responses, and RFC 3339.
pub record Codec : Type 0 where
  pub sha256_hex : String → String
  pub marshal_request : CreatePaymentRequest → String
  pub marshal_response : CreatePaymentResponse → List ℕ
  pub marshal_cancelled : (payment_id status : String) → List ℕ
  pub format_rfc3339 : Time → String

abbrev pub opt_str : String → Option String
opt_str s = if is_empty s then none else some s

abbrev pub deref_str : Option String → String
deref_str none = ""
deref_str (some s) = s

abbrev pub deref_map : Option Payload → Payload
deref_map none = none
deref_map (some m) = m

unfoldable pub to_next_action : NextAction → NextActionView
to_next_action a = record {
  bank = opt_str a.bank;
  expires_at = a.expires_at;
  qr_image_url = opt_str a.qr_image_url;
  qr_string = opt_str a.qr_string;
  redirect_url = opt_str a.redirect_url;
  type = a.type;
  va_number = opt_str a.va_number;
}

unfoldable pub create_command : (caller : String) → CreatePaymentRequest → CreatePaymentCommand
create_command caller req = record {
  reference_id = req.reference_id;
  caller_service = caller;
  amount = req.amount;
  currency = req.currency;
  gateway_type = req.gateway_type;
  payment_method_type = req.payment_method_type;
  bank_code = deref_str req.bank_code;
  card_token = deref_str req.card_token;
  return_url = deref_str req.return_url;
  customer_name = req.customer_name;
  customer_email = req.customer_email;
  customer_phone = deref_str req.customer_phone;
  customer_external_id = deref_str req.customer_external_id;
  description = deref_str req.description;
  expired_at = req.expired_at;
  metadata = deref_map req.metadata;
}

abbrev instruction : String → String → Members → Members
instruction k v ms = if is_empty v then ms else member k (text v) ms

abbrev filled : Members → Option Members
filled end = none
filled (member k v ms) = some (member k v ms)

-- Middleware's IdempotencyConflict answers.
abbrev pub still_in_progress : Error
still_in_progress =
    idempotency_conflict "a request for this reference_id is still in progress; retry shortly"

abbrev pub reused_reference : Error
reused_reference =
    idempotency_conflict "reference_id was already used with a different request payload"

abbrev pub replay_header : String × String
replay_header = ("X-Idempotent-Replay", "true")

module _ (codec : Codec) where
  abbrev expiry_time : Option Time → Members → Members
  expiry_time none ms = ms
  expiry_time (some t) ms = member "expiry_time" (text (codec.format_rfc3339 t)) ms

  -- A map, so the order of its members has no meaning.
  unfoldable pub legacy_instructions : NextAction → Members
  legacy_instructions a = expiry_time a.expires_at (
      instruction "va_number" a.va_number (
        instruction "bank" a.bank (
          instruction "qr_string" a.qr_string (
            instruction "qr_image_url" a.qr_image_url
              (instruction "redirect_url" a.redirect_url end)))))

  unfoldable pub to_create_payment_response :
      (show : Uuid → String) → CreatePaymentResult → CreatePaymentResponse
  unfolding to_next_action legacy_instructions
  to_create_payment_response show result = record {
    amount = result.payment.amount.amount;
    created_at = result.payment.created_at;
    currency = result.payment.amount.currency;
    next_action = to_next_action result.next_action;
    payment_id = show result.payment.id;
    payment_instructions = filled (legacy_instructions result.next_action);
    reference_id = result.payment.reference_id;
    status = status_text result.payment.status;
  }

  abbrev pub request_fingerprint : CreatePaymentRequest → String
  request_fingerprint req = codec.sha256_hex (codec.marshal_request req)

  abbrev pub request_key : (caller : String) → CreatePaymentRequest → String
  request_key caller req = idempotency_key codec.sha256_hex caller req.reference_id

abbrev pub response_body : Env → Codec → CreatePaymentResult → List ℕ
response_body env codec result =
    codec.marshal_response (to_create_payment_response codec env.show result)

abbrev pub created : Env → Codec → CreatePaymentResult → Reply
created env codec result = record {
  status = 201;
  header = json_type ∷ [];
  body = content (response_body env codec result);
}

module _ {S : Type 0} (env : Env) (codec : Codec) (service : IdempotencyService S) where
  -- A warning when the cache did not do what it was asked.
  abbrev warn_if : String → Result (Unit {0}) × S → World → World × S
  warn_if s (ok _, c) w = (w, c)
  warn_if s (err e, c) w = ((warn s w).1, c)

  unfoldable pub refuse : (holds_key : Bool) → (key : String) → World × S → World × S
  refuse false key (w, c) = (w, c)
  refuse true key (w, c) = warn_if "idempotency key release failed" (release service key c) w

  unfoldable pub keep :
      (holds_key : Bool) → (key request_hash : String) → List ℕ → World × S → World × S
  keep false key hash body (w, c) = (w, c)
  keep true key hash body (w, c) =
      warn_if "idempotency response store failed" (complete service key hash 201 body c) w

  unfoldable pub finish :
      (holds_key : Bool)
      → (key request_hash : String) → Result CreatePaymentResult
      → World × S
      → Reply × (World × S)
  unfolding refuse keep
  finish holds key hash (err e) at = (write_error e, refuse holds key at)
  finish holds key hash (ok result) at =
      (created env codec result, keep holds key hash (response_body env codec result) at)

  unfoldable pub run_create :
      (caller : String)
      → CreatePaymentRequest
      → (holds_key : Bool) → World × S
      → Reply × (World × S)
  unfolding finish
  run_create caller req holds (w, c) =
      let (r, w') = Create.handle env (create_command caller req) w in
      finish holds (request_key codec caller req) (request_fingerprint codec req) r (w', c)

  unfoldable pub decide :
      (caller : String)
      → CreatePaymentRequest
      → Result IdempotencyResult
      → World × S
      → Reply × (World × S)
  unfolding run_create
  decide caller req (err e) (w, c) =
      run_create caller req false
        ((warn "idempotency cache unavailable, continuing without it" w).1, c)
  decide caller req (ok r) at = elim r.outcome [
    | IdempotencyOutcome.new ↦ run_create caller req true at
    | IdempotencyOutcome.replay ↦ (
      record { status = r.status; header = replay_header ∷ json_type ∷ []; body = content r.body },
      at,
    )
    | IdempotencyOutcome.in_flight ↦ (write_error still_in_progress, at)
    | IdempotencyOutcome.mismatch ↦ (write_error reused_reference, at)
  ]

  -- CreatePayment, for the authenticated caller and the decoded body.
  unfoldable pub create_payment :
      (caller : String) → Option CreatePaymentRequest → World × S → Reply × (World × S)
  unfolding decide
  create_payment caller none at = (write_error invalid_json, at)
  create_payment caller (some req) (w, c) =
      let (r, c') =
        begin service (request_key codec caller req) (request_fingerprint codec req) c in
      decide caller req r (w, c')

  cancel_reply : Uuid → Result (Unit {0}) → Reply
  cancel_reply id (err e) = write_error e
  cancel_reply id (ok _) = record {
    status = 200;
    header = json_type ∷ [];
    body = content (codec.marshal_cancelled (env.show id) "CANCELLED");
  }

  -- CancelPayment, for the id in the path; `Scan` reads a UUID.
  unfoldable pub cancel_payment :
      (caller : String) → (scanned : Option Uuid) → World → Reply × World
  unfolding cancel_reply
  cancel_payment caller none w = (write_error invalid_payment_id, w)
  cancel_payment caller (some id) w =
      let (r, w') = handle_cancel env (record { payment_id = id; caller_service = caller }) w in
      (cancel_reply id r, w')
