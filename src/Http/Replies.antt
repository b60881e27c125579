-- ===== src/Http/Replies.antt =====
-- WriteError of middleware/error.go, and what a handler writes to its http.ResponseWriter.
use payment_module.Common.{ℕ, String, Option, none, some, List, [], ◌∷◌}
use payment_module.Errors.{
  Error, Code, code_text, plain, unknown_outcome, wrapped, app, app_cause, invalid_input,
}

-- Either the JSON of an errorResponse, or the bytes of another body.
pub data Body : Type 0 where
  error_body : (code message : String) → Body
  content : List ℕ → Body

pub record Reply : Type 0 where
  pub status : ℕ
  pub header : List (String × String)
  pub body : Body

abbrev pub json_type : String × String
json_type = ("Content-Type", "application/json")

-- errors.As with an *AppError target.
unfoldable pub app_error : Error → Option (Code × String)
app_error (plain s) = none
app_error unknown_outcome = none
app_error (wrapped e s) = app_error e
app_error (app c s) = some (c, s)
app_error (app_cause c s e) = some (c, s)

unfoldable pub code_to_http : Code → ℕ
code_to_http Code.not_found = 404
code_to_http Code.already_exists = 409
code_to_http Code.invalid_input = 400
code_to_http Code.invalid_state = 422
code_to_http Code.gateway_error = 502
code_to_http Code.idempotency_conflict = 409
code_to_http Code.conflict = 409
code_to_http Code.unauthorized = 401
code_to_http Code.forbidden = 403
code_to_http Code.internal_error = 500

error_reply : Option (Code × String) → Reply
error_reply none = record {
  status = 500;
  header = json_type ∷ [];
  body = error_body (code_text Code.internal_error) "internal server error";
}
error_reply (some (c, message)) = record {
  status = code_to_http c;
  header = json_type ∷ [];
  body = error_body (code_text c) message;
}

unfoldable pub write_error : Error → Reply
unfolding app_error code_to_http error_reply
write_error e = error_reply (app_error e)

abbrev pub invalid_json : Error
invalid_json = invalid_input "invalid or malformed JSON body"

abbrev pub invalid_payment_id : Error
invalid_payment_id = invalid_input "payment id must be a UUID"
