-- ===== src/Query/Own.antt =====
-- list_payments.go of internal/application/query: whose payments a listing shows.
use mathlib.Core.Path.{subst}
use payment_module.Common.{
  ◌&&◌, ◌==◌, ◌+◌, ◌≡◌, refl, true, false, ℕ, String, Bool, some, Option, List, [], ◌∷◌, map, arith,
  eq_iff, All, if-either, inl, inr, is_empty, ltb, length, if◌then◌else◌, Bool-cases, zero, suc,
}
use payment_module.Common.Windows.{limited, keep-All}
use payment_module.Common.Ordered.{keep, All-greatest_first, All-map}
use payment_module.Errors.{Result, ok, err, ◌>>=◌, internal, invalid_input}
use payment_module.Domain.Types.{Payment}
use payment_module.Store.Rows.{PaymentRow, to_domain}
use payment_module.Store.Save.{Session, run, read_list}
use payment_module.Query.Views.{to_dto}
use payment_module.Query.Cursor.{CursorCodec, PageKey, decode_cursor}
use payment_module.Query.Listing.{
  ListFilter, ListPaymentsQuery, ListPaymentsResult, row_before, is_after, matches, listed,
  list_paginated, page_of, list_page, list_payments, clamp_limit,
}

All-limited : {A : Type 0} (P : A → Type 0) (n : ℕ) (xs : List A) → All P xs → All P (limited n xs)
unfolding limited
All-limited P zero xs h = tt
All-limited P (suc n) [] h = tt
All-limited P (suc n) (x ∷ xs) (k, h) = (k, All-limited P n xs h)

map-All :
    {A B : Type 0} (P : B → Type 0) (f : A → B) (xs : List A)
    → All (λ x. P (f x)) xs
    → All P (map f xs)
map-All P f [] h = tt
map-All P f (x ∷ xs) (k, h) = (k, map-All P f xs h)

ok_injective : {A : Type 0} {a b : A} → ok a ≡ ok b → a ≡ b
ok_injective e = ground (arith, e)

-- A result that goes on to a value was one.
went_on :
    {A B : Type 0} (r : Result A) (f : A → Result B) (b : B)
    → (r >>= f) ≡ ok b
    → (a : A) × (f a ≡ ok b) × (r ≡ ok a)
went_on (ok a) f b e = (a, e, refl)
went_on (err x) f b e = ground (arith, e)

module _ (like : String → String → Bool) (s : Session) (rows : List PaymentRow) (f : ListFilter)
    (named : is_empty f.caller_service ≡ false) where
  matches-own :
      (after : Option PageKey) (row : PaymentRow)
      → matches like f row && is_after after row ≡ true
      → row.caller_service ≡ f.caller_service
  unfolding matches
  matches-own after row h = ground (arith, h, named, eq_iff row.caller_service f.caller_service)

  listed-own :
      (after : Option PageKey)
      → All (λ row. row.caller_service ≡ f.caller_service) (listed like f after rows)
  unfolding listed
  listed-own after =
      let wanted : PaymentRow → Bool = λ row. matches like f row && is_after after row in
      All-greatest_first row_before (λ row. row.caller_service ≡ f.caller_service)
        (keep wanted rows)
        (All-map row_before (λ row. wanted row ≡ true)
          (λ row. row.caller_service ≡ f.caller_service) (keep wanted rows) (matches-own after)
          (keep-All wanted rows))

  list_paginated-own :
      (after : Option PageKey) (n : ℕ) (ps : List Payment)
      → list_paginated like s f after n rows ≡ ok ps
      → All (λ p. p.caller_service ≡ f.caller_service) ps
  unfolding list_paginated to_domain
  list_paginated-own after n ps e =
      let m : ℕ = if n == 0 then 50 else n in
      let (u, e', v) =
        went_on (run (s.fault read_list) (λ x. internal "list payments" (some x)))
          (λ _. ok (map to_domain (limited m (listed like f after rows)))) ps e in
      subst (All (λ p. p.caller_service ≡ f.caller_service)) (ok_injective e') (
        map-All (λ p. p.caller_service ≡ f.caller_service) to_domain
          (limited m (listed like f after rows))
          (All-limited (λ row. row.caller_service ≡ f.caller_service) m (listed like f after rows)
            (listed-own after)))

  module _ (codec : CursorCodec) where
    page_of-own :
        (n : ℕ) (ps : List Payment)
        → All (λ p. p.caller_service ≡ f.caller_service) ps
        → All (λ d. d.caller_service ≡ f.caller_service) (page_of codec n ps).payments
    unfolding page_of to_dto
    page_of-own n ps h =
        if-either
          (λ (r : ListPaymentsResult). All (λ d. d.caller_service ≡ f.caller_service) r.payments)
          (ltb n (length ps)) _ _
          (λ more.
            map-All (λ d. d.caller_service ≡ f.caller_service) (to_dto codec.show) (limited n ps)
              (All-limited (λ p. p.caller_service ≡ f.caller_service) n ps h))
          λ fits. map-All (λ d. d.caller_service ≡ f.caller_service) (to_dto codec.show) ps h

    list_page-own :
        (cursor : String) (n : ℕ) (r : ListPaymentsResult)
        → list_page codec like s rows f cursor n ≡ ok r
        → All (λ d. d.caller_service ≡ f.caller_service) r.payments
    unfolding list_page
    list_page-own cursor n r e =
        let (after, e', _) =
          went_on (decode_cursor codec cursor)
            (λ o. list_paginated like s f o (n + 1) rows >>= λ ps. ok (page_of codec n ps)) r e in
        let (ps, e'', found) =
          went_on (list_paginated like s f after (n + 1) rows) (λ ps. ok (page_of codec n ps)) r
            e' in
        subst (λ z. All (λ d. d.caller_service ≡ f.caller_service) z.payments) (ok_injective e'')
          (page_of-own n ps (list_paginated-own after (n + 1) ps found))

-- A listing that a service asks for, with any filter, cursor and limit, shows no payment of another service.
pub list_payments-own :
    (codec : CursorCodec) (like : String → String → Bool) (s : Session) (rows : List PaymentRow)
    (q : ListPaymentsQuery) (r : ListPaymentsResult)
    → list_payments codec like s rows q ≡ ok r
    → All (λ d. d.caller_service ≡ q.caller_service) r.payments
unfolding list_payments
list_payments-own codec like s rows q r e = elim (Bool-cases (is_empty q.caller_service)) [
  | inl empty ↦ ground (arith, e, empty)
  | inr named ↦
      let f : ListFilter = record {
        status = q.status;
        caller_service = q.caller_service;
        gateway_type = "";
        reference_id = "";
        from = q.from;
        to = q.to;
      } in
      list_page-own like s rows f named codec q.cursor (clamp_limit q.limit 50) r (
        subst
          (λ b.
            (if b
              then err (invalid_input "caller_service is required")
              else list_page codec like s rows f q.cursor (clamp_limit q.limit 50))
            ≡ ok r)
          named e)
]
