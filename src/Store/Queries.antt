-- ===== src/Store/Queries.antt =====
-- The statements of internal/adapter/outbound/postgres/queries (and the generated db package) that
-- the repository runs, with the constraints that the migrations declare.
use Prim.Native.String.{count}
use payment_module.Common.{
  ℕ, ◌+◌, String, Bool, true, false, ◌&&◌, ◌||◌, Option, none, some, not, leb, List, [], ◌∷◌, ◌++◌,
  str_eq, ◌==◌, if◌then◌else◌,
}
use payment_module.Common.Int.{pos, leb_ℤ, ltb_ℤ, eqb_ℤ}
use payment_module.Common.Int32.{Int32}
use payment_module.Errors.{Result, ok, err, Error, plain}
use payment_module.Json.{Payload}
use payment_module.Domain.Types.{Uuid, Time, DomainEvent, event_type}
use payment_module.Domain.Status.{Status}
use payment_module.Store.Rows.{PaymentRow, RefundRow, EventRow}

-- What PostgreSQL reports for a broken constraint.
abbrev pub unique_violation : Error
unique_violation = plain "duplicate key value violates unique constraint (SQLSTATE 23505)"

abbrev pub check_violation : Error
check_violation = plain "new row violates check constraint (SQLSTATE 23514)"

abbrev pub value_too_long : Error
value_too_long = plain "value too long for type character varying (SQLSTATE 22001)"

-- PostgreSQL cuts off spaces beyond the limit; here a longer value is refused whatever it ends with.
abbrev fits : ℕ → String → Bool
fits limit s = leb (count s) limit

abbrev fits_if : ℕ → Option String → Bool
fits_if limit none = true
fits_if limit (some s) = fits limit s

-- The VARCHAR columns of migration 001, but for `status`.
unfoldable pub payment_fits : PaymentRow → Bool
payment_fits row =
    fits 255 row.reference_id
    && fits 100 row.caller_service
    && fits 50 row.gateway_type
    && fits_if 255 row.gateway_transaction_id
    && fits 10 row.currency
    && fits_if 50 row.payment_method_type

-- Those of migrations 006 and 009, but for `status`.
unfoldable pub refund_fits : RefundRow → Bool
refund_fits row =
    fits 255 row.reference_id && fits_if 255 row.gateway_refund_id && fits 100 row.requested_by

unfoldable pub has_reference : String → String → List PaymentRow → Bool
has_reference ref caller [] = false
has_reference ref caller (row ∷ rows) =
    if str_eq row.reference_id ref && str_eq row.caller_service caller
    then true
    else has_reference ref caller rows

unfoldable pub has_payment : Uuid → List PaymentRow → Bool
has_payment id [] = false
has_payment id (row ∷ rows) = if row.id == id then true else has_payment id rows

-- InsertPayment: ON CONFLICT (reference_id, caller_service) DO NOTHING. The number of rows inserted.
unfoldable pub insert_payment : PaymentRow → List PaymentRow → Result (ℕ × List PaymentRow)
unfolding payment_fits
insert_payment row rows =
    if not (payment_fits row)
    then err value_too_long
    else if has_reference row.reference_id row.caller_service rows
    then ok (0, rows)
    else if has_payment row.id rows
    then err unique_violation
    else if leb_ℤ row.amount (pos 0)
    then err check_violation
    else ok (1, rows ++ row ∷ [])

pub record UpdatePaymentFullParams : Type 0 where
  pub id : Uuid
  pub gateway_transaction_id : Option String
  pub status : Status
  pub gateway_response_payload : Payload
  pub paid_at : Option Time
  pub updated_at : Time
  pub version : ℕ

abbrev pub updated_row : UpdatePaymentFullParams → PaymentRow → PaymentRow
updated_row u row = record row {
  gateway_transaction_id = u.gateway_transaction_id;
  status = u.status;
  gateway_response_payload = u.gateway_response_payload;
  paid_at = u.paid_at;
  updated_at = u.updated_at;
  version = row.version + 1;
}

-- UpdatePaymentFull: WHERE id = $1 AND version = $7. The number of rows changed.
unfoldable pub update_payment_full : UpdatePaymentFullParams → List PaymentRow → ℕ × List PaymentRow
update_payment_full u [] = (0, [])
update_payment_full u (row ∷ rows) =
    let (n, rest) = update_payment_full u rows in
    if row.id == u.id && row.version == u.version
    then (n + 1, updated_row u row ∷ rest)
    else (n, row ∷ rest)

-- The statement fails when a row would get a transaction id that its VARCHAR column cannot hold.
unfoldable pub update_fits : UpdatePaymentFullParams → ℕ → Bool
update_fits u n = n == 0 || fits_if 255 u.gateway_transaction_id

-- ON CONFLICT (id) DO UPDATE SET …
abbrev pub merged_refund : RefundRow → RefundRow → RefundRow
merged_refund new old = record old {
  gateway_refund_id = new.gateway_refund_id;
  status = new.status;
  failure_reason = new.failure_reason;
  updated_at = new.updated_at;
  completed_at = new.completed_at;
}

unfoldable pub has_refund : Uuid → List RefundRow → Bool
has_refund id [] = false
has_refund id (row ∷ rows) = if row.id == id then true else has_refund id rows

merge_refund : RefundRow → List RefundRow → List RefundRow
merge_refund new [] = []
merge_refund new (row ∷ rows) =
    if row.id == new.id then merged_refund new row ∷ rows else row ∷ merge_refund new rows

has_refund_reference : String → Uuid → List RefundRow → Bool
has_refund_reference ref payment [] = false
has_refund_reference ref payment (row ∷ rows) =
    if str_eq row.reference_id ref && row.payment_id == payment
    then true
    else has_refund_reference ref payment rows

-- UpsertRefund, under the unique (reference_id, payment_id).
unfoldable pub upsert_refund : RefundRow → List RefundRow → Result (List RefundRow)
unfolding has_refund merge_refund has_refund_reference refund_fits
upsert_refund new rows =
    if not (refund_fits new)
    then err value_too_long
    else if has_refund new.id rows
    then ok (merge_refund new rows)
    else if has_refund_reference new.reference_id new.payment_id rows
    then err unique_violation
    else if leb_ℤ new.amount (pos 0)
    then err check_violation
    else ok (rows ++ new ∷ [])

greater : Int32 → Option Int32 → Int32
greater n none = n
greater n (some m) = if ltb_ℤ n m then m else n

greatest_sequence : Uuid → List EventRow → Option Int32
unfolding greater
greatest_sequence id [] = none
greatest_sequence id (row ∷ rows) =
    let rest = greatest_sequence id rows in
    if row.aggregate_id == id then some (greater row.sequence_number rest) else rest

or_zero : Option Int32 → Int32
or_zero none = pos 0
or_zero (some n) = n

-- GetLastEventSequence: COALESCE(MAX(sequence_number), 0)
unfoldable pub last_event_sequence : Uuid → List EventRow → Int32
unfolding greatest_sequence or_zero
last_event_sequence id rows = or_zero (greatest_sequence id rows)

unfoldable pub has_sequence : Uuid → Int32 → List EventRow → Bool
has_sequence id n [] = false
has_sequence id n (row ∷ rows) =
    if row.aggregate_id == id && eqb_ℤ row.sequence_number n then true else has_sequence id n rows

-- InsertPaymentEvent, under the unique (aggregate_id, sequence_number).
unfoldable pub insert_payment_event :
    Uuid → Int32 → DomainEvent → List EventRow → Result (List EventRow)
unfolding has_sequence
insert_payment_event id n e rows =
    if has_sequence id n rows
    then err unique_violation
    else ok (
        rows
        ++ record { aggregate_id = id; event_type = event_type e; sequence_number = n; payload = e }
          ∷ [])
