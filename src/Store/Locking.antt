-- ===== src/Store/Locking.antt =====
-- The version check of PaymentRepo.Save and UpdatePaymentFull, which is the optimistic lock.
use payment_module.Common.{
  ℕ, ◌≡◌, refl, String, Bool, true, false, ◌&&◌, none, List, [], ◌∷◌, arith, ◌==◌, if◌then◌else◌,
  ◌<>◌, ◌≢◌,
}
use payment_module.Errors.{ok, err, Error, Code, is_code, conflict}
use payment_module.Domain.Types.{Uuid, Payment}
use payment_module.Store.Rows.{PaymentRow, Db}
use payment_module.Store.Queries.{UpdatePaymentFullParams, update_payment_full}
use payment_module.Store.Save.{
  Session, begin_transaction, write_payment, is_new_payment, update_params, write_payment_row,
  save_transaction, save,
}
use payment_module.Domain.Aggregate.{peek_events}

-- A row of the payment `id` at version `v`.
abbrev pub has_version : Uuid → ℕ → List PaymentRow → Bool
has_version id v [] = false
has_version id v (row ∷ rows) =
    if row.id == id && row.version == v then true else has_version id v rows

update_none :
    (u : UpdatePaymentFullParams) (rows : List PaymentRow)
    → has_version u.id u.version rows ≡ false
    → (update_payment_full u rows).0 ≡ 0
unfolding update_payment_full
update_none u [] h = refl
update_none u (row ∷ rows) h = ground (arith, update_none u rows)

update_takes_version :
    (u : UpdatePaymentFullParams) (rows : List PaymentRow)
    → has_version u.id u.version (update_payment_full u rows).1 ≡ false
unfolding update_payment_full
update_takes_version u [] = refl
update_takes_version u (row ∷ rows) = ground (arith, update_takes_version u rows)

-- When the transaction begins and the write does not fail, saving a stored payment of which no row has
-- the loaded version is a CONFLICT, and changes no table.
pub save-conflict :
    (show : Uuid → String) (s : Session) (p : Payment) (db : Db)
    → s.fault begin_transaction ≡ none
    → s.fault write_payment ≡ none
    → is_new_payment p.events ≡ false
    → has_version p.id p.version db.payments ≡ false
    → (e : Error) × (save show s p db ≡ (err e, db)) × (is_code e Code.conflict ≡ true)
unfolding save save_transaction write_payment_row peek_events
save-conflict show s p db begun written old gone = (
  conflict ("payment " <> (show p.id <> " was changed by another request; reload and retry")),
  ground (arith, update_none (update_params s.column_time p) db.payments),
  refl,
)

-- What a successful save did to the payments table.
saved_payments :
    (show : Uuid → String) (s : Session) (p p' : Payment) (db db' : Db)
    → save show s p db ≡ (ok p', db')
    → write_payment_row show s p db.payments ≡ ok db'.payments
unfolding save save_transaction
saved_payments show s p p' db db' e = ground arith

-- After a save of a stored payment nobody can save over it from the version that it was loaded at.
saved_version :
    (show : Uuid → String) (s : Session) (p p' : Payment) (db db' : Db)
    → is_new_payment p.events ≡ false
    → save show s p db ≡ (ok p', db')
    → has_version p.id p.version db'.payments ≡ false
unfolding write_payment_row peek_events
saved_version show s p p' db db' old e = ground (
  arith,
  saved_payments show s p p' db db' e,
  update_takes_version (update_params s.column_time p) db.payments,
)

-- After a stored payment was saved, a second save from the same loaded version does not succeed.
pub save_once :
    (show : Uuid → String) (s s' : Session) (p p' q q' : Payment) (db db' db'' : Db)
    → is_new_payment p.events ≡ false
    → is_new_payment q.events ≡ false
    → q.id ≡ p.id
    → q.version ≡ p.version
    → save show s p db ≡ (ok p', db')
    → save show s' q db' ≢ (ok q', db'')
unfolding write_payment_row peek_events
save_once show s s' p p' q q' db db' db'' old_p old_q same_id same_version first second = ground (
  arith,
  saved_version show s p p' db db' old_p first,
  saved_payments show s' q q' db' db'' second,
  update_none (update_params s'.column_time q) db'.payments,
)
