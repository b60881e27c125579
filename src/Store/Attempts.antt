-- ===== src/Store/Attempts.antt =====
-- internal/adapter/outbound/postgres/attempt_recorder.go, and db/attempt.sql.go.
use payment_module.Common.{
  ℕ, zero, suc, ◌+◌, ◌/◌, String, Bool, false, ◌&&◌, ◌||◌, Option, none, some, List, [], ◌∷◌, ◌++◌,
  leb, ◌==◌, if◌then◌else◌,
}
use payment_module.Common.Int.{ℤ, pos, negsuc}
use payment_module.Errors.{Error, internal}
use payment_module.Json.{Payload}
use payment_module.Domain.Types.{Uuid}
use payment_module.Ports.Attempt.{Attempt, GatewayOperation, AttemptOutcome}
use payment_module.Store.Rows.{to_nullable_string}

-- A row of payment_attempts.
pub record AttemptRow : Type 0 where
  pub payment_id : Uuid
  pub refund_id : Option Uuid
  pub operation : GatewayOperation
  pub attempt_number : ℕ
  pub status : AttemptOutcome
  pub gateway_transaction_id : Option String
  pub error_code : Option String
  pub error_message : Option String
  pub gateway_response : Payload
  pub duration_ms : ℤ

-- Duration.Milliseconds, of nanoseconds
abbrev milliseconds : ℤ → ℤ
milliseconds (pos n) = pos (n / 1000000)
milliseconds (negsuc n) = elim ((n + 1) / 1000000) [ zero ↦ pos 0 | suc m ↦ negsuc m ]

unfoldable pub numbered : Attempt → ℕ → AttemptRow
numbered a n = record {
  payment_id = a.payment_id;
  refund_id = a.refund_id;
  operation = a.operation;
  attempt_number = n;
  status = a.outcome;
  gateway_transaction_id = to_nullable_string a.gateway_transaction_id;
  error_code = to_nullable_string a.error_code;
  error_message = to_nullable_string a.error_message;
  gateway_response = a.gateway_response;
  duration_ms = milliseconds a.duration;
}

abbrev larger : ℕ → ℕ → ℕ
larger a b = if leb a b then b else a

-- COALESCE(MAX(attempt_number), 0) of a payment
unfoldable pub last_number : Uuid → List AttemptRow → ℕ
last_number id [] = 0
last_number id (row ∷ rows) =
    let rest = last_number id rows in
    if row.payment_id == id then larger row.attempt_number rest else rest

-- The unique index on (payment_id, attempt_number).
unfoldable pub taken : Uuid → ℕ → List AttemptRow → Bool
taken id n [] = false
taken id n (row ∷ rows) = (row.payment_id == id && row.attempt_number == n) || taken id n rows

pub data InsertError : Type 0 where
  unique_violation : Error → InsertError
  other_error : Error → InsertError

-- What others do at each try, before the statement reads and between its reading and its writing, and
-- what the database does: its faults, the error of a violation, and json.Marshal's error.
pub record Traffic : Type 0 where
  pub earlier : ℕ → List AttemptRow
  pub racing : ℕ → List AttemptRow
  pub fault : ℕ → Option Error
  pub violation : Error
  pub marshal : Payload → Option Error

abbrev pub max_number_retries : ℕ
max_number_retries = 3

module _ (traffic : Traffic) where
  unfoldable pub write_number : Attempt → ℕ → List AttemptRow → Option InsertError × List AttemptRow
  unfolding taken numbered
  write_number a n rows =
      if taken a.payment_id n rows
      then (some (unique_violation traffic.violation), rows)
      else (none, rows ++ numbered a n ∷ [])

  unfoldable pub insert_unless :
      Option Error → ℕ → Attempt → List AttemptRow → Option InsertError × List AttemptRow
  unfolding write_number last_number
  insert_unless (some e) t a rows = (some (other_error e), rows)
  insert_unless none t a rows =
      write_number a (last_number a.payment_id rows + 1) (rows ++ traffic.racing t)

  unfoldable pub insert_payment_attempt :
      ℕ → Attempt → List AttemptRow → Option InsertError × List AttemptRow
  unfolding insert_unless
  insert_payment_attempt t a rows = insert_unless (traffic.fault t) t a (rows ++ traffic.earlier t)

  -- Whether the loop goes round again.
  unfoldable pub go_on :
      Option InsertError × List AttemptRow
      → (List AttemptRow → Option Error × List AttemptRow)
      → Option Error × List AttemptRow
  go_on (none, rows) again = (none, rows)
  go_on (some (other_error e), rows) again =
      (some (internal "insert payment attempt" (some e)), rows)
  go_on (some (unique_violation e), rows) again = again rows

  -- The loop, with the tries that are left; without one the last error is that of a violation.
  unfoldable pub try_insert :
      (left : ℕ) → (t : ℕ) → Attempt → List AttemptRow → Option Error × List AttemptRow
  unfolding insert_payment_attempt go_on
  try_insert zero t a rows =
      (some (internal "insert payment attempt" (some traffic.violation)), rows)
  try_insert (suc left) t a rows =
      go_on (insert_payment_attempt t a rows) (λ rows'. try_insert left (suc t) a rows')

  unfoldable pub record_marshalled :
      Option Error → Attempt → List AttemptRow → Option Error × List AttemptRow
  unfolding try_insert
  record_marshalled (some e) a rows =
      (some (internal "marshal attempt gateway response" (some e)), rows)
  record_marshalled none a rows = try_insert max_number_retries 0 a rows

  unfoldable pub record_attempt : Attempt → List AttemptRow → Option Error × List AttemptRow
  unfolding record_marshalled
  record_attempt a rows = record_marshalled (traffic.marshal a.gateway_response) a rows
