-- ===== src/Outbox/Queries.antt =====
-- The statements on outbox_events of internal/adapter/outbound/postgres/db/outbox.sql.go.
use payment_module.Common.Windows.{limited}
use payment_module.Common.{
  ℕ, ◌+◌, ◌*◌, String, Bool, true, false, not, ◌&&◌, some, List, [], ◌∷◌, ◌==◌, leb, if◌then◌else◌,
}
use payment_module.Common.Int.{pos, ◌+ℤ◌, leb_ℤ, ltb_ℤ}
use payment_module.Domain.Types.{Time, Uuid}
use payment_module.Store.Rows.{OutboxRow, OutboxStatus}

abbrev pub is_pending : OutboxStatus → Bool
is_pending OutboxStatus.pending = true
is_pending _ = false

-- WHERE status = 'PENDING' AND scheduled_at <= NOW(), less the rows that others hold locked.
unfoldable pub is_due : (now : Time) → (locked : Uuid → Bool) → OutboxRow → Bool
is_due now locked row = is_pending row.status && leb_ℤ row.scheduled_at now && not (locked row.id)

unfoldable pub due_rows : (now : Time) → (locked : Uuid → Bool) → List OutboxRow → List OutboxRow
due_rows now locked [] = []
due_rows now locked (row ∷ rows) =
    let rest = due_rows now locked rows in if is_due now locked row then row ∷ rest else rest

unfoldable pub place_row : OutboxRow → List OutboxRow → List OutboxRow
place_row r [] = r ∷ []
place_row r (q ∷ qs) = if ltb_ℤ q.created_at r.created_at then q ∷ place_row r qs else r ∷ q ∷ qs

-- ORDER BY created_at
unfoldable pub oldest_first : List OutboxRow → List OutboxRow
unfolding place_row
oldest_first [] = []
oldest_first (r ∷ rs) = place_row r (oldest_first rs)

unfoldable pub get_pending_outbox_events :
    (now : Time) → (locked : Uuid → Bool) → (limit : ℕ) → List OutboxRow → List OutboxRow
unfolding due_rows oldest_first limited
get_pending_outbox_events now locked limit rows =
    limited limit (oldest_first (due_rows now locked rows))

-- 30 seconds in nanoseconds
abbrev pub back_off : ℕ
back_off = 30000000000

unfoldable pub failed_row : (now : Time) → String → OutboxRow → OutboxRow
failed_row now last_error row = record row {
  status = (if leb 5 row.retry_count then OutboxStatus.failed else OutboxStatus.pending);
  retry_count = row.retry_count + 1;
  last_error = some last_error;
  scheduled_at = now +ℤ pos ((row.retry_count + 1) * back_off);
}

unfoldable pub published_row : (now : Time) → OutboxRow → OutboxRow
published_row now row = record row { status = OutboxStatus.published; published_at = some now }

-- UPDATE … WHERE id = $1
unfoldable pub update_where : Uuid → (OutboxRow → OutboxRow) → List OutboxRow → List OutboxRow
update_where id f [] = []
update_where id f (row ∷ rows) = (if row.id == id then f row else row) ∷ update_where id f rows

unfoldable pub mark_outbox_event_failed :
    (now : Time) → Uuid → String → List OutboxRow → List OutboxRow
unfolding failed_row update_where
mark_outbox_event_failed now id last_error rows = update_where id (failed_row now last_error) rows

unfoldable pub mark_outbox_event_published : (now : Time) → Uuid → List OutboxRow → List OutboxRow
unfolding published_row update_where
mark_outbox_event_published now id rows = update_where id (published_row now) rows
