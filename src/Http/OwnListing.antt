-- ===== src/Http/OwnListing.antt =====
-- ListPayments of payment_handler.go: whose payments a reply shows.
use mathlib.Core.Path.{subst}
use payment_module.Common.{◌≡◌, refl, String, Bool, List, All, ◌⊎◌, inl, inr}
use payment_module.Errors.{Error, Result, ok, err}
use payment_module.Store.Rows.{PaymentRow}
use payment_module.Store.Save.{Session}
use payment_module.Query.Cursor.{CursorCodec}
use payment_module.Query.Listing.{ListPaymentsQuery, ListPaymentsResult, list_payments}
use payment_module.Query.Own.{list_payments-own}
use payment_module.Http.Replies.{Reply, write_error}
use payment_module.Http.Reads.{
  ReadCodec, ListParams, parse_list_params, write_payment_list, list_reply, listed_for,
  serve_payments,
}

-- The reply is an error, or a page of payments of the service alone.
abbrev pub ErrorOrOwn : ReadCodec → String → Reply → Type 0
ErrorOrOwn codec caller reply =
    ((e : Error) × (reply ≡ write_error e))
    ⊎ ((r : ListPaymentsResult) × (reply ≡ write_payment_list codec r)
        × All (λ d. d.caller_service ≡ caller) r.payments)

module _ (codec : ReadCodec) (cursors : CursorCodec) (like : String → String → Bool) (s : Session)
    (rows : List PaymentRow) (caller : String) where
  replied :
      (q : ListPaymentsQuery) (r : Result ListPaymentsResult)
      → q.caller_service ≡ caller
      → list_payments cursors like s rows q ≡ r
      → ErrorOrOwn codec caller (list_reply codec r)
  unfolding list_reply
  replied q (err e) own answer = inl (e, refl)
  replied q (ok r) own answer = inr (
    r,
    refl,
    subst (λ c. All (λ d. d.caller_service ≡ c) r.payments) own
        (list_payments-own cursors like s rows q r answer),
  )

  asked :
      (get : String → String) (params : Result ListParams)
      → ErrorOrOwn codec caller
          (list_reply codec (listed_for codec cursors like s rows caller get params))
  unfolding listed_for list_reply
  asked get (err e) = inl (e, refl)
  asked get (ok params) =
      let q : ListPaymentsQuery = record {
        status = get "status";
        caller_service = caller;
        from = params.from;
        to = params.to;
        cursor = params.cursor;
        limit = params.limit;
      } in
      replied q (list_payments cursors like s rows q) refl refl

-- A reply of ListPayments to a service, whatever its query parameters ask for, is that of an error, or a
-- page on which every payment is that service's own.
pub serve_payments-Own :
    (codec : ReadCodec) (cursors : CursorCodec) (like : String → String → Bool) (s : Session)
    (rows : List PaymentRow) (caller : String) (to_first : Bool) (get : String → String)
    → ErrorOrOwn codec caller (serve_payments codec cursors like s rows caller to_first get)
unfolding serve_payments
serve_payments-Own codec cursors like s rows caller to_first get =
    asked codec cursors like s rows caller get (parse_list_params codec to_first get)
