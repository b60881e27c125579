-- ===== src/Errors.antt =====
-- Errors: internal/pkg/apperror/errors.go, with the chains of wrapped errors that `errors.As` and
-- `errors.Is` walk. A nil `error` is the `none` of an `Option Error`.
mod Codes
pub use Codes.{Code, code_text}
use payment_module.Common.{String, ◌<>◌, Bool, true, false, Option, none, some, str_eq, ◌≡◌, refl}

-- `unknown_outcome` is ports.ErrUnknownOutcome; `wrapped e s` is fmt.Errorf("%w" + s, e); `app` is
-- an AppError without a cause and `app_cause` is one with.
pub data Error : Type 0 where
  plain : String → Error
  unknown_outcome : Error
  wrapped : Error → String → Error
  app : Code → String → Error
  app_cause : Code → String → Error → Error

unfoldable pub error_text : Error → String
error_text (plain s) = s
error_text unknown_outcome = "gateway outcome unknown"
error_text (wrapped e s) = error_text e <> s
error_text (app c s) = "[" <> (code_text c <> ("] " <> s))
error_text (app_cause c s e) = "[" <> (code_text c <> ("] " <> (s <> (": " <> error_text e))))

-- errors.As with an *AppError target: the code of the first AppError in the chain.
abbrev pub app_code : Error → Option Code
app_code (plain s) = none
app_code unknown_outcome = none
app_code (wrapped e s) = app_code e
app_code (app c s) = some c
app_code (app_cause c s e) = some c

-- errors.Is(err, ports.ErrUnknownOutcome)
abbrev pub is_unknown : Error → Bool
is_unknown (plain s) = false
is_unknown unknown_outcome = true
is_unknown (wrapped e s) = is_unknown e
is_unknown (app c s) = false
is_unknown (app_cause c s e) = is_unknown e

abbrev code_is : Option Code → Code → Bool
code_is none c = false
code_is (some d) c = str_eq (code_text d) (code_text c)

abbrev pub is_code : Error → Code → Bool
is_code e c = code_is (app_code e) c

abbrev pub not_found : String → Error
not_found = app Code.not_found

abbrev pub already_exists : String → Error
already_exists = app Code.already_exists

abbrev pub invalid_input : String → Error
invalid_input = app Code.invalid_input

abbrev pub invalid_state : String → Error
invalid_state = app Code.invalid_state

abbrev pub conflict : String → Error
conflict = app Code.conflict

abbrev pub unauthorized : String → Error
unauthorized = app Code.unauthorized

abbrev pub forbidden : String → Error
forbidden = app Code.forbidden

abbrev pub idempotency_conflict : String → Error
idempotency_conflict = app Code.idempotency_conflict

abbrev pub gateway_error : String → Option Error → Error
gateway_error s none = app Code.gateway_error s
gateway_error s (some e) = app_cause Code.gateway_error s e

abbrev pub internal : String → Option Error → Error
internal s none = app Code.internal_error s
internal s (some e) = app_cause Code.internal_error s e

-- A call that returns (value, error).
pub data Result {ℓ} (A : Type ℓ) : Type ℓ where
  err : Error → Result A
  ok : A → Result A

-- What follows a call is skipped when the call returned an error.
infixl 5 ◌>>=◌ ◌>>◌
abbrev pub ◌>>=◌ {ℓ κ} : {A : Type ℓ} {B : Type κ} (r : Result A) (next : A → Result B) → Result B
err e >>= next = err e
ok value >>= next = next value

abbrev pub ◌>>◌ {ℓ} : {B : Type ℓ} (check : Result (Unit {0})) (rest : Result B) → Result B
check >> rest = check >>= λ _. rest
