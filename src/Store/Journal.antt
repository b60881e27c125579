-- ===== src/Store/Journal.antt =====
-- The rows that PaymentRepo.Save appends to payment_events and outbox_events.
use payment_module.Common.{
  ℕ, ◌+◌, ◌≡◌, ◌<◌, ◌^◌, refl, String, none, List, [], ◌∷◌, ◌++◌, arith, length,
}
use mathlib.Core.List.{append_assoc, append-nil}
use payment_module.Common.Int.{pos}
use payment_module.Common.Int32.{add, int32, add-int32_exact}
use payment_module.Errors.{ok}
use payment_module.Domain.Types.{Uuid, Payment, DomainEvent, event_type, aggregate_id}
use payment_module.Store.Rows.{EventRow, OutboxRow, OutboxStatus, Db}
use payment_module.Store.Queries.{insert_payment_event, last_event_sequence}
use payment_module.Store.Save.{
  Session, save, save_transaction, write_events, write_outbox_rows, to_outbox_events,
}

abbrev pub numbered : Uuid → ℕ → List DomainEvent → List EventRow
numbered id n [] = []
numbered id n (e ∷ es) =
    record { aggregate_id = id; event_type = event_type e; sequence_number = pos n; payload = e }
    ∷ numbered id (n + 1) es

-- The row announces the event: it waits, was never tried, and is due since it was written.
pub record IsAnnouncement (s : Session) (e : DomainEvent) (row : OutboxRow) : Type 0 where
  pub same_aggregate : row.aggregate_id ≡ aggregate_id e
  pub same_type : row.event_type ≡ event_type e
  pub same_payload : row.payload ≡ e
  pub waits : row.status ≡ OutboxStatus.pending
  pub untried : row.retry_count ≡ 0
  pub unfailed : row.last_error ≡ none
  pub unpublished : row.published_at ≡ none
  pub written : row.created_at ≡ s.now
  pub due : row.scheduled_at ≡ s.now

-- One row for each event, in the same order.
abbrev pub Announce : Session → List DomainEvent → List OutboxRow → Type 0
Announce s [] [] = Unit
Announce s [] (row ∷ rows) = ⊥
Announce s (e ∷ es) [] = ⊥
Announce s (e ∷ es) (row ∷ rows) = IsAnnouncement s e row × Announce s es rows

to_outbox_events-Announce :
    (s : Session) (i : ℕ) (es : List DomainEvent) → Announce s es (to_outbox_events s i es)
unfolding to_outbox_events
to_outbox_events-Announce s i [] = tt
to_outbox_events-Announce s i (e ∷ es) = (
  record {
    same_aggregate = refl;
    same_type = refl;
    same_payload = refl;
    waits = refl;
    untried = refl;
    unfailed = refl;
    unpublished = refl;
    written = refl;
    due = refl;
  },
  to_outbox_events-Announce s (i + 1) es,
)

write_events-eq :
    (s : Session) (id : Uuid) (last i : ℕ) (es : List DomainEvent) (rows rows' : List EventRow)
    → last + (i + length es) < 2 ^ 31
    → write_events s id (pos last) i es rows ≡ ok rows'
    → rows' ≡ rows ++ numbered id (last + (i + 1)) es
unfolding write_events insert_payment_event
write_events-eq s id last i [] rows rows' small h = ground (arith, h, append-nil rows)
write_events-eq s id last i (e ∷ es) rows rows' small h =
    let row : EventRow = record {
      aggregate_id = id;
      event_type = event_type e;
      sequence_number = pos (last + (i + 1));
      payload = e;
    } in
    let next : last + (i + 1 + 1) ≡ last + (i + 1) + 1 = omega arith in
    let smaller : last + (i + 1 + length es) < 2 ^ 31 = omega (arith, small) in
    let exact : add (pos last) (int32 (pos (i + 1))) ≡ pos (last + (i + 1)) =
      add-int32_exact last (i + 1) (omega (arith, small)) in
    ground (
      arith,
      h,
      exact,
      next,
      write_events-eq s id last (i + 1) es (rows ++ row ∷ []) rows' smaller,
      append_assoc rows (row ∷ []) (numbered id (last + (i + 1) + 1) es),
    )

write_outbox-eq :
    (s : Session) (i : ℕ) (os rows rows' : List OutboxRow)
    → write_outbox_rows s i os rows ≡ ok rows'
    → rows' ≡ rows ++ os
unfolding write_outbox_rows
write_outbox-eq s i [] rows rows' h = ground (arith, append-nil rows)
write_outbox-eq s i (o ∷ os) rows rows' h =
    ground
      (arith, write_outbox-eq s (i + 1) os (rows ++ o ∷ []) rows', append_assoc rows (o ∷ []) os)

saved_journal :
    (show : Uuid → String) (s : Session) (p p' : Payment) (db db' : Db) (last : ℕ)
    → last_event_sequence p.id db.events ≡ pos last
    → last + length p.events < 2 ^ 31
    → save show s p db ≡ (ok p', db')
    → (db'.events ≡ db.events ++ numbered p.id (last + 1) p.events)
      × (db'.outbox ≡ db.outbox ++ to_outbox_events s 0 p.events)
      × (p'.events ≡ [])
unfolding save save_transaction
saved_journal show s p p' db db' last number small e = ground (
  arith,
  number,
  write_events-eq s p.id last 0 p.events db.events db'.events (omega (arith, small)),
  write_outbox-eq s 0 (to_outbox_events s 0 p.events) db.outbox db'.outbox,
)

-- While the last stored number and the count of pending events stay below 2^31 together, a successful save
-- appends the payment's pending events to payment_events, numbered on from that number, and for each of
-- them in the same order one outbox row, which is pending, due and untried and carries the event; the
-- payment handed back has no event left.
pub save_journal :
    (show : Uuid → String) (s : Session) (p p' : Payment) (db db' : Db) (last : ℕ)
    → last_event_sequence p.id db.events ≡ pos last
    → last + length p.events < 2 ^ 31
    → save show s p db ≡ (ok p', db')
    → (db'.events ≡ db.events ++ numbered p.id (last + 1) p.events)
      × ((rows : List OutboxRow) × (db'.outbox ≡ db.outbox ++ rows) × Announce s p.events rows)
      × (p'.events ≡ [])
save_journal show s p p' db db' last number small e =
    let (events, outbox, none_left) = saved_journal show s p p' db db' last number small e in
    (
      events,
      (to_outbox_events s 0 p.events, outbox, to_outbox_events-Announce s 0 p.events),
      none_left,
    )
