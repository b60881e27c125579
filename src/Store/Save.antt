-- ===== src/Store/Save.antt =====
-- PaymentRepo.Save of internal/adapter/outbound/postgres/payment_repo.go: one transaction.
use payment_module.Common.{
  ℕ, ◌+◌, String, ◌<>◌, Bool, true, false, Option, none, some, List, [], ◌∷◌, ◌++◌, ◌==◌,
  if◌then◌else◌,
}
use payment_module.Errors.{Result, ok, err, Error, internal, already_exists, conflict, ◌>>=◌, ◌>>◌}
use payment_module.Domain.Types.{
  Uuid, Time, DomainEvent, event_type, aggregate_id, payment_initiated, Payment, Refund,
}
use payment_module.Common.Int.{pos}
use payment_module.Common.Int32.{Int32, int32, add}
use payment_module.Domain.Aggregate.{peek_events}
use payment_module.Store.Rows.{
  PaymentRow, RefundRow, EventRow, OutboxRow, OutboxStatus, Db, to_row, to_refund_params,
  to_nullable_string, kept,
}
use payment_module.Store.Queries.{
  insert_payment, UpdatePaymentFullParams, update_payment_full, update_fits, value_too_long,
  upsert_refund, last_event_sequence, insert_payment_event,
}

-- The statements that the repository runs, each of which the database may fail.
pub data Statement : Type 0 where
  begin_transaction write_payment read_sequence commit : Statement
  read_payment read_refunds read_list : Statement
  write_refund : Uuid → Statement
  write_event write_outbox : ℕ → Statement

-- What the database does on its own: failures, the UUIDs that it generates, its NOW(), what a TIMESTAMPTZ
-- column keeps of a time, and the tables as a later query of the same call finds them, after what others
-- committed since its first.
pub record Session : Type 0 where
  pub fault : Statement → Option Error
  pub row_id : ℕ → Uuid
  pub now : Time
  pub column_time : Time → Time
  pub later : ℕ → Db → Db

abbrev pub run : Option Error → (Error → Error) → Result (Unit {0})
run none context = ok tt
run (some e) context = err (context e)

abbrev context : String → Error → Error
context s e = internal s (some e)

abbrev within {ℓ} : {A : Type ℓ} → Result A → (Error → Error) → Result A
within (ok a) f = ok a
within (err e) f = err (f e)

unfoldable pub is_new_payment : List DomainEvent → Bool
is_new_payment [] = false
is_new_payment (payment_initiated _ _ ∷ es) = true
is_new_payment (_ ∷ es) = is_new_payment es

unfoldable pub to_outbox_events : Session → ℕ → List DomainEvent → List OutboxRow
to_outbox_events s i [] = []
to_outbox_events s i (e ∷ es) =
    record {
      id = s.row_id i;
      aggregate_id = aggregate_id e;
      event_type = event_type e;
      payload = e;
      status = OutboxStatus.pending;
      retry_count = 0;
      last_error = none;
      scheduled_at = s.now;
      published_at = none;
      created_at = s.now;
    }
    ∷ to_outbox_events s (i + 1) es

abbrev pub update_params : (column_time : Time → Time) → Payment → UpdatePaymentFullParams
update_params column_time p = record {
  id = p.id;
  gateway_transaction_id = to_nullable_string p.gateway_transaction_id;
  status = p.status;
  gateway_response_payload = p.gateway_response_payload;
  paid_at = kept column_time p.paid_at;
  updated_at = column_time p.updated_at;
  version = p.version;
}

inserted_one : String → ℕ × List PaymentRow → Result (List PaymentRow)
inserted_one ref (n, rows) =
    if n == 0
    then err (already_exists ("payment already exists for reference_id: " <> ref))
    else ok rows

updated_one : String → ℕ × List PaymentRow → Result (List PaymentRow)
updated_one shown (n, rows) =
    if n == 0
    then err
        (conflict ("payment " <> (shown <> " was changed by another request; reload and retry")))
    else ok rows

checked : UpdatePaymentFullParams → ℕ × List PaymentRow → Result (ℕ × List PaymentRow)
unfolding update_fits
checked u (n, rows) = if update_fits u n then ok (n, rows) else err value_too_long

write_row :
    (Uuid → String)
    → (column_time : Time → Time) → Payment
    → List PaymentRow
    → Result (List PaymentRow)
unfolding inserted_one updated_one is_new_payment checked
write_row show column_time p rows =
    if is_new_payment (peek_events p)
    then within (insert_payment (to_row column_time p) rows) (context "persist payment")
      >>= inserted_one p.reference_id
    else let u = update_params column_time p in
      within (checked u (update_payment_full u rows)) (context "persist payment")
      >>= updated_one (show p.id)

-- The branches on `isNew`: insert the row, or update it if its version is still the one loaded.
unfoldable pub write_payment_row :
    (Uuid → String) → Session → Payment → List PaymentRow → Result (List PaymentRow)
unfolding write_row
write_payment_row show s p rows = do
  run (s.fault write_payment) (context "persist payment")
  write_row show s.column_time p rows

unfoldable pub write_refunds : Session → List Refund → List RefundRow → Result (List RefundRow)
write_refunds s [] rows = ok rows
write_refunds s (rf ∷ rfs) rows = do
  run (s.fault (write_refund rf.id)) (context "persist refund")
  rows' ← within (upsert_refund (to_refund_params s.column_time rf) rows) (context "persist refund")
  write_refunds s rfs rows'

-- Event i (from 0) gets the number `lastSeq + int32(i+1)`.
unfoldable pub write_events :
    Session → Uuid → (last : Int32) → ℕ → List DomainEvent → List EventRow → Result (List EventRow)
write_events s id last i [] rows = ok rows
write_events s id last i (e ∷ es) rows = do
  run (s.fault (write_event i)) (context "insert payment_event")
  rows' ←
      within (insert_payment_event id (add last (int32 (pos (i + 1)))) e rows)
        (context "insert payment_event")
  write_events s id last (i + 1) es rows'

-- OutboxWriter.WriteWithTx
unfoldable pub write_outbox_rows :
    Session → ℕ → List OutboxRow → List OutboxRow → Result (List OutboxRow)
write_outbox_rows s i [] rows = ok rows
write_outbox_rows s i (o ∷ os) rows = do
  run (s.fault (write_outbox i)) (context "insert outbox event")
  write_outbox_rows s (i + 1) os (rows ++ o ∷ [])

-- The transaction's new tables, or the error that rolls it back.
unfoldable pub save_transaction : (Uuid → String) → Session → Payment → Db → Result Db
save_transaction show s p db = do
  run (s.fault begin_transaction) (context "begin transaction")
  payments ← write_payment_row show s p db.payments
  refunds ← write_refunds s p.refunds db.refunds
  run (s.fault read_sequence) (context "read last event sequence")
  events ← write_events s p.id (last_event_sequence p.id db.events) 0 p.events db.events
  outbox ← write_outbox_rows s 0 (to_outbox_events s 0 p.events) db.outbox
  run (s.fault commit) (context "commit transaction")
  ok (record { payments = payments; refunds = refunds; events = events; outbox = outbox })

unfoldable pub saved : Payment → Payment
saved p = record p { events = []; version = (if is_new_payment p.events then 1 else p.version + 1) }

-- Save returns the payment that the caller holds afterwards. After an error the database is as it was,
-- and no caller reads the payment again.
unfoldable pub save : (Uuid → String) → Session → Payment → Db → Result Payment × Db
unfolding saved
save show s p db = elim (save_transaction show s p db) [
  | ok db' ↦ (ok (saved p), db')
  | err e ↦ (err e, db)
]
