-- ===== src/Query/Pages.antt =====
-- list_page of cursor.go over ListPaginated: a page and the pages after it.
use payment_module.Common.Windows.{
  length-map, map-map, limited, limited-all, Around, last_of, around, last_of-map, limited-exceeds,
  limited-map, length-limited, limited-fits,
}
use payment_module.Query.Order.{DistinctIds, rest_of}
use payment_module.Domain.Types.{Payment}
use payment_module.Errors.{ok, Error, Result, err, ◌>>=◌, internal}
use payment_module.Store.Save.{Session, read_list}
use payment_module.Query.Views.{PaymentDto, to_dto}
use payment_module.Common.{
  ◌≡◌, refl, sym, ◌∙◌, ap, true, false, ℕ, suc, ◌+◌, ◌≤◌, String, Bool, Option, none, some, List,
  [], ◌∷◌, ◌++◌, map, length, ltb, ◌==◌, arith, All, inl, inr, ◌⊎◌, if-either, if◌then◌else◌, ◌<>◌,
  is_empty, Option-cases, ◌≢◌,
}
use Prim.Native.String.{◌∷◌ as ◌:>◌}
use text.Mathlib.TextLemmas.{nil-append, cons-append}
use payment_module.Common.Separators.{has_char, cut-append}
use payment_module.Common.Strings.{cut}
use mathlib.Core.Path.{subst}
use mathlib.Core.List.{append-nil}
use payment_module.Common.Ordered.{All-keep, All-greatest_first, All-middle}
use payment_module.Store.Rows.{PaymentRow, to_domain}
use payment_module.Query.Cursor.{
  PageKey, CursorCodec, encode_cursor, decode_cursor, decode_raw, decode_parts,
}
use payment_module.Query.Listing.{
  ListFilter, key_of, row_before, listed, ListPaymentsResult, page_of, cursor_after, list_page,
  list_paginated,
}

abbrev pub view : CursorCodec → PaymentRow → PaymentDto
view codec row = to_dto codec.show (to_domain row)

-- The cursor of a key decodes to it: its time and id print to texts that read back, the time has no
-- `|`, and encoded texts decode and are not empty.
pub record ReadsBack (codec : CursorCodec) (k : PageKey) : Type 0 where
  pub time : codec.parse_time (codec.format k.created_at) ≡ some k.created_at
  pub plain_time : has_char "|" (codec.format k.created_at) ≡ false
  pub id : codec.parse (codec.show k.id) ≡ some k.id
  pub text :
      codec.decode (encode_cursor codec k)
      ≡ some (codec.format k.created_at <> ("|" <> codec.show k.id))
  pub filled : is_empty (encode_cursor codec k) ≡ false

pub decode-encode :
    (codec : CursorCodec) (k : PageKey)
    → ReadsBack codec k
    → decode_cursor codec (encode_cursor codec k) ≡ ok (some k)
unfolding decode_cursor decode_raw decode_parts
decode-encode codec k h =
    let parts : cut "|" (codec.format k.created_at <> ("|" <> codec.show k.id))
        ≡ (codec.format k.created_at, codec.show k.id, true) =
      ap (λ u. cut "|" (codec.format k.created_at <> u))
        (cons-append "|" "" (codec.show k.id) ∙ ap (λ u. "|" :> u) (nil-append (codec.show k.id)))
      ∙ cut-append "|" (codec.format k.created_at) (codec.show k.id) h.plain_time in
    rw (h.filled, h.text, parts, h.time, h.id) refl

ok-injective : {A : Type 0} {a b : A} → ok a ≡ ok b → a ≡ b
ok-injective e = cc e

err-not-ok : {A : Type 0} {a : A} {e : Error} → err e ≢ ok a
err-not-ok e = cc e

joined :
    (codec : CursorCodec) (front rest : List PaymentRow) (last : PaymentRow)
    → map (view codec) (front ++ last ∷ rest)
      ≡ map (to_dto codec.show) (map to_domain (front ++ last ∷ [])) ++ map (view codec) rest
joined codec [] rest last = refl
joined codec (x ∷ front) rest last = ap (λ z. view codec x ∷ z) (joined codec front rest last)

-- The page, and how the whole list goes on after it.
pub record Page (codec : CursorCodec) (like : String → String → Bool) (f : ListFilter)
    (after : Option PageKey) (rows : List PaymentRow) (limit : ℕ) (res : ListPaymentsResult)
    : Type 0 where
  pub next : List PaymentRow
  pub joins : map (view codec) (listed like f after rows) ≡ res.payments ++ map (view codec) next
  pub continues :
      ((res.next_cursor ≡ "") × (next ≡ []))
      ⊎ ((k : PageKey) × (decode_cursor codec res.next_cursor ≡ ok (some k))
          × (next ≡ listed like f (some k) rows))
  pub short : length res.payments ≤ limit

module _ (codec : CursorCodec) (like : String → String → Bool) (s : Session)
    (rows : List PaymentRow) (distinct : DistinctIds rows)
    (reads : All (λ row. ReadsBack codec (key_of row)) rows) where
  module _ (f : ListFilter) (after : Option PageKey) (n : ℕ) where
    last-Page :
        length (listed like f after rows) ≤ suc n
        → Page codec like f after rows (suc n) (record {
          payments =
              map
                (to_dto codec.show)
                (map to_domain (limited (suc (suc n)) (listed like f after rows)));
          next_cursor = "";
        })
    last-Page fits =
        let whole : List PaymentRow = listed like f after rows in
        subst
          (λ z.
            Page codec like f after rows (suc n)
              (record { payments = map (to_dto codec.show) (map to_domain z); next_cursor = "" }))
          (sym (limited-all (suc (suc n)) whole (omega (arith, fits))))
          (record {
            next = [];
            joins =
                sym (map-map (to_dto codec.show) to_domain whole)
                ∙ sym (append-nil (map (to_dto codec.show) (map to_domain whole)));
            continues = inl (refl, refl);
            short = omega (
              arith,
              fits,
              length-map (to_dto codec.show) (map to_domain whole),
              length-map to_domain whole,
            );
          })

    reads_last :
        (front rest : List PaymentRow) (last : PaymentRow)
        → listed like f after rows ≡ front ++ last ∷ rest
        → ReadsBack codec (key_of last)
    unfolding listed
    reads_last front rest last whole =
        All-middle row_before (λ row. ReadsBack codec (key_of row)) front last rest
          (subst (All (λ row. ReadsBack codec (key_of row))) whole (
            All-greatest_first row_before (λ row. ReadsBack codec (key_of row)) _
              (All-keep row_before (λ row. ReadsBack codec (key_of row)) _ rows reads)))

    full-Page :
        (a : Around n (listed like f after rows))
        → Page codec like f after rows (suc n) (record {
          payments = map (to_dto codec.show) (map to_domain (a.front ++ a.last ∷ []));
          next_cursor = cursor_after codec (last_of (map to_domain (a.front ++ a.last ∷ [])));
        })
    unfolding cursor_after to_domain
    full-Page a = record {
      next = a.rest;
      joins = ap (map (view codec)) a.whole ∙ joined codec a.front a.rest a.last;
      continues = inr (
        key_of a.last,
        ap (λ o. decode_cursor codec (cursor_after codec o)) (last_of-map to_domain a.front a.last)
            ∙ decode-encode codec (key_of a.last) (reads_last a.front a.rest a.last a.whole),
        sym (rest_of like f after rows distinct a.front a.rest a.last a.whole),
      );
      short = omega (
        arith,
        length-map (to_dto codec.show) (map to_domain (a.front ++ a.last ∷ [])),
        length-map to_domain (a.front ++ a.last ∷ []),
        ap length a.page,
        length-limited (suc n) (listed like f after rows),
      );
    }

    pages :
        Page codec like f after rows
          (suc n)
          (page_of codec (suc n) (map to_domain (limited (suc (suc n)) (listed like f after rows))))
    unfolding page_of
    pages =
        let whole : List PaymentRow = listed like f after rows in
        let fetched : List Payment = map to_domain (limited (suc (suc n)) whole) in
        let size : length fetched ≡ length (limited (suc (suc n)) whole) =
          length-map to_domain (limited (suc (suc n)) whole) in
        if-either (Page codec like f after rows (suc n)) (ltb (suc n) (length fetched)) _ _
          (λ more.
            let a : Around n whole =
              around n whole (limited-exceeds (suc n) whole (ground (arith, more, size))) in
            subst
              (λ z. Page codec like f after rows (suc n) (record {
                payments = map (to_dto codec.show) z;
                next_cursor = cursor_after codec (last_of z);
              }))
              (sym (limited-map to_domain (suc n) whole ∙ ap (map to_domain) a.page)) (full-Page a))
          λ fits. last-Page (limited-fits (suc n) whole (ground (arith, fits, size)))

    fetched_page :
        s.fault read_list ≡ none
        → list_paginated like s f after (suc n + 1) rows
          ≡ ok (map to_domain (limited (suc (suc n)) (listed like f after rows)))
    unfolding list_paginated
    fetched_page calm =
        let size : (if suc n + 1 == 0 then 50 else suc n + 1) ≡ suc (suc n) = ground arith in
        rw calm (ap (λ m. ok (map to_domain (limited m (listed like f after rows)))) size)

    fails_broken :
        (e : Error)
        → s.fault read_list ≡ some e
        → list_paginated like s f after (suc n + 1) rows ≡ err (internal "list payments" (some e))
    unfolding list_paginated
    fails_broken e broken = rw broken refl

    paged :
        (cursor : String) (r : Result (List Payment))
        → decode_cursor codec cursor ≡ ok after
        → list_paginated like s f after (suc n + 1) rows ≡ r
        → list_page codec like s rows f cursor (suc n)
          ≡ (r >>= λ payments. ok (page_of codec (suc n) payments))
    unfolding list_page
    paged cursor r decoded found =
        ap
          (λ d. d >>= λ k. list_paginated like s f k (suc n + 1) rows >>= λ payments.
            ok (page_of codec (suc n) payments))
          decoded
        ∙ ap (λ x. x >>= λ payments. ok (page_of codec (suc n) payments)) found

    -- The ids of the rows are distinct, and their keys survive the cursor's encoding. When a page of
    -- size n + 1 is answered, it has at most that many payments, and the whole list from its cursor on
    -- is the page followed by the list from the next cursor on, or the page alone if that is empty:
    -- following the cursors skips no payment and repeats none.
    pub list_page-Page :
        (cursor : String) (res : ListPaymentsResult)
        → decode_cursor codec cursor ≡ ok after
        → list_page codec like s rows f cursor (suc n) ≡ ok res
        → Page codec like f after rows (suc n) res
    list_page-Page cursor res decoded answered = elim (Option-cases (s.fault read_list)) [
      | inl calm ↦
          subst (Page codec like f after rows (suc n))
            (ok-injective (sym (paged cursor _ decoded (fetched_page calm)) ∙ answered)) pages
      | inr (e, broken) ↦
          absurd (err-not-ok (sym (paged cursor _ decoded (fails_broken e broken)) ∙ answered))
    ]
