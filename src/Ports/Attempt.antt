-- ===== src/Ports/Attempt.antt =====
-- internal/application/ports/attempt.go, and failedAttempt of internal/application/command/attempt.go.
use payment_module.Common.{String, Option, none, some, if◌then◌else◌}
use payment_module.Errors.{Error, error_text, app_code, code_text, is_unknown, Code}
use payment_module.Json.{Payload}
use payment_module.Domain.Types.{Uuid}
use payment_module.Common.Int.{ℤ}

pub data GatewayOperation : Type 0 where
  charge cancel refund status : GatewayOperation

pub data AttemptOutcome : Type 0 where
  succeeded failed unknown : AttemptOutcome

pub record Attempt : Type 0 where
  pub payment_id : Uuid
  pub refund_id : Option Uuid
  pub operation : GatewayOperation
  pub outcome : AttemptOutcome
  pub gateway_transaction_id : String
  pub error_code : String
  pub error_message : String
  pub duration : ℤ
  pub gateway_response : Payload

-- An attempt whose literal sets only these fields; the outcome "" that Go starts from is always
-- overwritten, and is `unknown` here.
abbrev pub blank : Uuid → GatewayOperation → String → ℤ → Attempt
blank payment_id operation gateway_tx_id duration = record {
  payment_id = payment_id;
  refund_id = none;
  operation = operation;
  outcome = AttemptOutcome.unknown;
  gateway_transaction_id = gateway_tx_id;
  error_code = "";
  error_message = "";
  duration = duration;
  gateway_response = none;
}

abbrev pub error_code_text : Option Code → String
error_code_text none = "ERROR"
error_code_text (some c) = code_text c

unfoldable pub failed_attempt : Attempt → Error → Attempt
unfolding error_text
failed_attempt a e = record a {
  outcome = (if is_unknown e then AttemptOutcome.unknown else AttemptOutcome.failed);
  error_code = error_code_text (app_code e);
  error_message = error_text e;
}
