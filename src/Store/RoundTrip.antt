-- ===== src/Store/RoundTrip.antt =====
-- PaymentRepo.Save of a new payment against FindByID, over the conversions toDomain and to_row.
use payment_module.Errors.{ok}
use payment_module.Domain.Aggregate.{peek_events}
use payment_module.Store.Save.{
  save, save_transaction, Session, write_payment_row, write_refunds, is_new_payment, read_payment,
  read_refunds,
}
use payment_module.Common.{
  ◌≡◌, refl, String, true, false, none, some, Option, List, [], ◌∷◌, ◌++◌, arith, ◌==◌, eq_iff,
}
use mathlib.Core.Option.{map}
use payment_module.Domain.Types.{Uuid, Payment, Time}
use payment_module.Domain.Method.{Method, method_text, method_of, is_known}
use payment_module.Store.Rows.{
  kept, PaymentRow, to_row, to_domain, to_nullable_string, deref_string, Db,
}
use payment_module.Store.Queries.{has_payment, insert_payment}
use payment_module.Store.Find.{select, find_by_id, list_refunds_by_payment}

deref-nullable : (s : String) → deref_string (to_nullable_string s) ≡ s
deref-nullable s = ground (arith, eq_iff s "")

method-text :
    (m : Method)
    → is_known m ≡ true
    → method_of (deref_string (to_nullable_string (method_text m))) ≡ m
unfolding method_of
method-text Method.virtual_account h = refl
method-text Method.qris h = refl
method-text Method.gopay h = refl
method-text Method.shopeepay h = refl
method-text Method.card h = refl
method-text (Method.other s) h = cc

-- A payment with nothing but what `New` and the charge set; its refunds have a table of their own.
pub record IsPlain (p : Payment) : Type 0 where
  pub method_known : is_known p.payment_method_type ≡ true
  pub no_request : p.gateway_request_payload ≡ none
  pub not_deleted : p.deleted_at ≡ none
  pub no_refunds : p.refunds ≡ []

-- The payment with its times as columns keep them.
abbrev pub with_column_times : (Time → Time) → Payment → Payment
with_column_times f p = record p {
  expired_at = map f p.expired_at;
  paid_at = map f p.paid_at;
  created_at = f p.created_at;
  updated_at = f p.updated_at;
}

kept-map : (f : Time → Time) (o : Option Time) → kept f o ≡ map f o
kept-map f none = refl
kept-map f (some t) = refl

to_domain-to_row :
    (f : Time → Time) (p : Payment)
    → IsPlain p
    → to_domain (to_row f p) ≡ with_column_times f (record p { events = []; version = 1 })
unfolding to_domain to_row
to_domain-to_row f p h = ground (
  arith,
  h,
  kept-map f p.expired_at,
  kept-map f p.paid_at,
  method-text p.payment_method_type,
  deref-nullable p.gateway_transaction_id,
  deref-nullable p.description,
)

select-append :
    (id : Uuid) (rows : List PaymentRow) (row : PaymentRow)
    → has_payment id rows ≡ false
    → row.id ≡ id
    → row.deleted_at ≡ none
    → select (λ r. r.id == id) (rows ++ row ∷ []) ≡ some row
unfolding select has_payment
select-append id [] row h e d = ground arith
select-append id (q ∷ rows) row h e d = ground (arith, select-append id rows row)

saved_new :
    (show : Uuid → String) (s : Session) (p p' : Payment) (db db' : Db)
    → is_new_payment p.events ≡ true
    → p.refunds ≡ []
    → save show s p db ≡ (ok p', db')
    → (has_payment p.id db.payments ≡ false)
      × (db'.payments ≡ db.payments ++ to_row s.column_time p ∷ [])
      × (db'.refunds ≡ db.refunds)
      × (p' ≡ record p { events = []; version = 1 })
unfolding save save_transaction write_payment_row write_refunds insert_payment peek_events to_row
saved_new show s p p' db db' new none_yet e = ground arith

-- After a new payment was saved that has no refunds, no request payload, no deletion time and a method
-- that the gateways know, FindByID, when its reads do not fail and its second query finds no refund of
-- the payment, gives back the payment that Save handed over, with its four times as the columns keep
-- them.
pub find_by_id-save :
    (show : Uuid → String) (s s' : Session) (p p' : Payment) (db db' : Db)
    → IsPlain p
    → is_new_payment p.events ≡ true
    → list_refunds_by_payment p.id (s'.later 1 db').refunds ≡ []
    → s'.fault read_payment ≡ none
    → s'.fault read_refunds ≡ none
    → save show s p db ≡ (ok p', db')
    → find_by_id show s' p.id db' ≡ ok (with_column_times s.column_time p')
unfolding find_by_id to_row
find_by_id-save show s s' p p' db db' plain new no_rows up up' e =
    let (absent, rows, same, is) = saved_new show s p p' db db' new plain.no_refunds e in
    ground (
      arith,
      absent,
      rows,
      same,
      is,
      plain,
      no_rows,
      select-append p.id db.payments (to_row s.column_time p),
      to_domain-to_row s.column_time p plain,
    )
