-- ===== src/Store/Find.antt =====
-- The lookups of internal/adapter/outbound/postgres/payment_repo.go.
use payment_module.Domain.Status.{refund_pending, is_pending, is_initiated}
use payment_module.Errors.{Result, err, ok, not_found, ◌>>=◌, ◌>>◌, internal}
use payment_module.Common.Int.{ltb_ℤ, eqb_ℤ}
use payment_module.Common.{
  Bool, true, false, ◌&&◌, Option, none, some, List, [], ◌∷◌, if◌then◌else◌, String, ℕ, str_eq,
  ◌==◌, suc, ◌||◌, not, ltb, zero, ◌<>◌, map,
}
use payment_module.Domain.Types.{Time, Refund, Uuid, Payment}
use payment_module.Store.Save.{Session, run, read_payment, read_refunds, read_list}
use payment_module.Store.Rows.{PaymentRow, Db, RefundRow, to_refund, to_domain}

abbrev is_missing : Option Time → Bool
is_missing none = true
is_missing (some _) = false

-- The first row of a query with `AND deleted_at IS NULL`.
unfoldable pub select : (PaymentRow → Bool) → List PaymentRow → Option PaymentRow
select test [] = none
select test (row ∷ rows) =
    if test row && is_missing row.deleted_at then some row else select test rows

unfoldable pub select_all : (PaymentRow → Bool) → List PaymentRow → List PaymentRow
select_all test [] = []
select_all test (row ∷ rows) =
    if test row && is_missing row.deleted_at
    then row ∷ select_all test rows
    else select_all test rows

-- ORDER BY created_at, id
before : Refund → Refund → Bool
before a b = ltb_ℤ a.created_at b.created_at || (eqb_ℤ a.created_at b.created_at && ltb a.id b.id)

unfoldable pub place : Refund → List Refund → List Refund
unfolding before
place r [] = r ∷ []
place r (q ∷ qs) = if before r q then r ∷ q ∷ qs else q ∷ place r qs

-- ListRefundsByPayment, and the conversion in withRefunds.
unfoldable pub list_refunds_by_payment : Uuid → List RefundRow → List Refund
unfolding place
list_refunds_by_payment id [] = []
list_refunds_by_payment id (row ∷ rows) =
    let rest = list_refunds_by_payment id rows in
    if row.payment_id == id && is_missing row.deleted_at then place (to_refund row) rest else rest

-- The refunds come from a query of their own, over the tables that it finds.
unfoldable pub with_refunds : Session → PaymentRow → Db → Result Payment
unfolding list_refunds_by_payment
with_refunds s row db = do
  run (s.fault read_refunds) (λ e. internal "list refunds" (some e))
  ok (record (to_domain row) { refunds = list_refunds_by_payment row.id db.refunds })

found_row : Session → String → Option PaymentRow → Db → Result Payment
unfolding with_refunds
found_row s message none db = err (not_found message)
found_row s message (some row) db = with_refunds s row db

-- GetByID over the tables as its first and its second query find them.
unfoldable pub find_in : (Uuid → String) → Session → Uuid → (first second : Db) → Result Payment
unfolding found_row select
find_in show s id first second = do
  run (s.fault read_payment) (λ e. internal "get payment" (some e))
  found_row s ("payment not found: " <> show id) (select (λ row. row.id == id) first.payments)
      second

unfoldable pub find_by_id : (Uuid → String) → Session → Uuid → Db → Result Payment
unfolding find_in
find_by_id show s id db = find_in show s id db (s.later 1 db)

unfoldable pub find_by_reference : Session → String → String → Db → Result Payment
unfolding found_row select
find_by_reference s ref caller db = do
  run (s.fault read_payment) (λ e. internal "get payment by reference" (some e))
  found_row s ("payment not found for reference: " <> ref)
      (select (λ row. str_eq row.reference_id ref && str_eq row.caller_service caller) db.payments)
      (s.later 1 db)

abbrev column_is : Option String → String → Bool
column_is none s = false
column_is (some t) s = str_eq t s

unfoldable pub find_by_gateway_transaction_id : Session → String → Db → Result Payment
unfolding found_row select
find_by_gateway_transaction_id s tx db = do
  run (s.fault read_payment) (λ e. internal "get payment by gateway tx" (some e))
  found_row s ("payment not found for gateway tx: " <> tx)
      (select (λ row. column_is row.gateway_transaction_id tx) db.payments) (s.later 1 db)

abbrev is_past : Option Time → Time → Bool
is_past none now = false
is_past (some t) now = ltb_ℤ t now

abbrev limited {ℓ} : {A : Type ℓ} → ℕ → List A → List A
limited zero xs = []
limited (suc n) [] = []
limited (suc n) (x ∷ xs) = x ∷ limited n xs

unfoldable pub find_expired : Session → ℕ → Db → Result (List Payment)
unfolding select_all
find_expired s limit db = do
  run (s.fault read_list) (λ e. internal "query expired payments" (some e))
  ok (
      map to_domain (
        limited limit
          (select_all (λ row. is_pending row.status && is_past row.expired_at s.now) db.payments)))

place_row : PaymentRow → List PaymentRow → List PaymentRow
place_row r [] = r ∷ []
place_row r (q ∷ qs) = if ltb_ℤ r.created_at q.created_at then r ∷ q ∷ qs else q ∷ place_row r qs

oldest_first : List PaymentRow → List PaymentRow
oldest_first [] = []
oldest_first (r ∷ rs) = place_row r (oldest_first rs)

unfoldable pub find_awaiting_charge_outcome : Session → Time → ℕ → Db → Result (List Payment)
unfolding select_all place_row oldest_first
find_awaiting_charge_outcome s cutoff limit db = do
  run (s.fault read_list) (λ e. internal "query payments awaiting charge outcome" (some e))
  ok (
      map to_domain (
        limited limit (
          oldest_first (
            select_all
              (λ row. is_initiated row.status && ltb_ℤ row.created_at (s.column_time cutoff))
              db.payments))))

contains : Uuid → List Uuid → Bool
contains id [] = false
contains id (j ∷ js) = if j == id then true else contains id js

-- SELECT DISTINCT payment_id … WHERE status = 'PENDING' AND created_at < $1
pending_refund_payments : Time → List RefundRow → List Uuid
unfolding contains
pending_refund_payments cutoff [] = []
pending_refund_payments cutoff (row ∷ rows) =
    let rest = pending_refund_payments cutoff rows in
    if refund_pending row.status
      && ltb_ℤ row.created_at cutoff
      && is_missing row.deleted_at
      && not (contains row.payment_id rest)
    then row.payment_id ∷ rest
    else rest

-- The payments one after the other, from query `k` of the call on.
find_each : (Uuid → String) → Session → (k : ℕ) → List Uuid → Db → Result (List Payment)
unfolding find_in
find_each show s k [] db = ok []
find_each show s k (id ∷ ids) db = do
  p ← find_in show s id (s.later k db) (s.later (suc k) db)
  rest ← find_each show s (suc (suc k)) ids db
  ok (p ∷ rest)

unfoldable pub find_with_pending_refunds :
    (Uuid → String) → Session → Time → ℕ → Db → Result (List Payment)
unfolding pending_refund_payments find_each
find_with_pending_refunds show s cutoff limit db = do
  run (s.fault read_list) (λ e. internal "query payments with pending refunds" (some e))
  find_each show s 1 (limited limit (pending_refund_payments (s.column_time cutoff) db.refunds)) db
