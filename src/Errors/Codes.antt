-- ===== src/Errors/Codes.antt =====
-- The error codes of internal/pkg/apperror/errors.go.
use payment_module.Common.{String}

pub data Code : Type 0 where
  not_found already_exists invalid_input invalid_state gateway_error : Code
  internal_error idempotency_conflict conflict unauthorized forbidden : Code

abbrev pub code_text : Code → String
code_text Code.not_found = "NOT_FOUND"
code_text Code.already_exists = "ALREADY_EXISTS"
code_text Code.invalid_input = "INVALID_INPUT"
code_text Code.invalid_state = "INVALID_STATE"
code_text Code.gateway_error = "GATEWAY_ERROR"
code_text Code.internal_error = "INTERNAL_ERROR"
code_text Code.idempotency_conflict = "IDEMPOTENCY_CONFLICT"
code_text Code.conflict = "CONFLICT"
code_text Code.unauthorized = "UNAUTHORIZED"
code_text Code.forbidden = "FORBIDDEN"
