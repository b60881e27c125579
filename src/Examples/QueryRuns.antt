-- ===== src/Examples/QueryRuns.antt =====
-- Runs of the queries.
use payment_module.Common.Separators.{has_char}
use payment_module.Common.{
  ◌≡◌, refl, String, some, none, true, false, [], ◌∷◌, List, Option, All, str_eq, ◌==◌,
  if◌then◌else◌, ap, is_empty,
}
use payment_module.Common.Int.{pos}
use payment_module.Errors.{Result, ok, err, not_found}
use payment_module.Domain.Types.{Uuid}
use payment_module.Ports.Cache.{Cache, get, drop_cached_payment}
use payment_module.Store.Rows.{PaymentRow, to_row}
use payment_module.Query.Views.{Reads, to_dto, get_payment, get_by_ref}
use payment_module.Query.Cached.{MissesIn, reads_after_drop}
use payment_module.Query.Cursor.{CursorCodec, encode_cursor, decode_cursor}
use payment_module.Query.Listing.{ListFilter, list_page, ListPaymentsResult, key_of, list_paginated}
use payment_module.Http.Reads.{ReadCodec, serve_payments}
use payment_module.Http.OwnListing.{ErrorOrOwn, serve_payments-Own}
use payment_module.Query.Order.{DistinctIds}
use payment_module.Query.Pages.{Page, ReadsBack, list_page-Page}
use payment_module.Examples.Payments.{paid, show}
use payment_module.Examples.StoreRuns.{calm}

abbrev found : Option String → Result String
found none = err (not_found "cache miss")
found (some v) = ok v

-- A repository that knows `paid`, and a cache whose entries are no views of it.
abbrev reads : Reads Cache
reads = record {
  get = λ k c. found (get k c);
  set = λ k v ttl c. (k, v) ∷ c;
  marshal = λ dto. some "view";
  unmarshal = λ raw. none;
  find_by_id = λ id. ok paid;
  find_by_reference = λ ref caller. ok paid;
  show = show;
}

misses : MissesIn reads
misses k c h = (not_found "cache miss", ap found h)

reads_after_drop_example :
    let d = drop_cached_payment reads.show (true, true) paid (("payment:other", "old") ∷ []) in
    ((get_payment reads paid.id paid.caller_service false d).0 ≡ ok (to_dto reads.show paid))
    × ((get_by_ref reads paid.reference_id paid.caller_service d).0 ≡ ok (to_dto reads.show paid))
reads_after_drop_example =
    reads_after_drop reads misses paid paid paid (("payment:other", "old") ∷ []) refl refl refl refl
      refl

-- Two payments of the same instant, whose ids are 1 and 2.
abbrev codec : CursorCodec
codec = record {
  encode = λ s. s;
  decode = λ s. some s;
  format = λ t. "10";
  parse_time = λ s. if str_eq s "10" then some (pos 10) else none;
  show = λ id. if id == 1 then "one" else "two";
  parse = λ s. if str_eq s "one" then some 1 else some 2;
}

abbrev rows : List PaymentRow
rows = to_row calm.column_time paid ∷ record (to_row calm.column_time paid) { id = 2 } ∷ []

abbrev everything : ListFilter
everything = record {
  status = "";
  caller_service = "shop";
  gateway_type = "";
  reference_id = "";
  from = none;
  to = none;
}

abbrev page_or : Result ListPaymentsResult → ListPaymentsResult
page_or (ok r) = r
page_or (err e) = record { payments = []; next_cursor = "" }

abbrev first_page : ListPaymentsResult
first_page = page_or (list_page codec str_eq calm rows everything "" 1)

distinct : DistinctIds rows
unfolding to_row
distinct = ((refl, tt), (tt, tt))

-- The cursor of either row reads back.
back :
    (id : Uuid)
    → (parse_id : codec.parse (codec.show id) ≡ some id)
    → is_empty (encode_cursor codec (record { created_at = pos 10; id = id })) ≡ false
    → ReadsBack codec (record { created_at = pos 10; id = id })
unfolding has_char encode_cursor
back id parsed shown = record {
  time = refl;
  plain_time = refl;
  id = parsed;
  text = refl;
  filled = shown;
}

reads_back : All (λ row. ReadsBack codec (key_of row)) rows
unfolding to_row encode_cursor
reads_back = (back 1 refl refl, (back 2 refl refl, tt))

list_page-Page_example : Page codec str_eq everything none rows 1 first_page
unfolding list_page decode_cursor list_paginated
list_page-Page_example =
    list_page-Page codec str_eq calm rows distinct reads_back everything none 0 "" first_page refl
      refl

abbrev read_codec : ReadCodec
read_codec = record {
  parse_rfc3339 = λ v. none;
  atoi = λ v. some (pos 1);
  marshal_payment = λ dto. [];
  marshal_page = λ page. page.meta.count ∷ [];
  marshal_refunds = λ r. [];
}

abbrev parameters : String → String
parameters name = if str_eq name "limit" then "1" else ""

serve_payments-Own_example :
    ErrorOrOwn read_codec "shop"
      (serve_payments read_codec codec str_eq calm rows "shop" true parameters)
serve_payments-Own_example =
    serve_payments-Own read_codec codec str_eq calm rows "shop" true parameters
