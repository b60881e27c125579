-- ===== src/Http/Reads.antt =====
-- The handlers that read: GetPayment, GetPaymentByRef and ListPayments of payment_handler.go,
-- ListRefunds of refund_handler.go, and list.go, of internal/adapter/inbound/http.
use payment_module.Common.{
  ℕ, String, ◌<>◌, Bool, true, false, not, Option, none, some, List, [], ◌∷◌, map, length, is_empty,
  if◌then◌else◌,
}
use payment_module.Common.Int.{ℤ, pos, ltb_ℤ}
use payment_module.Errors.{Result, ok, err, invalid_input, ◌>>=◌}
use payment_module.Domain.Types.{Time, Uuid, Payment}
use payment_module.Store.Rows.{PaymentRow}
use payment_module.Store.Save.{Session}
use payment_module.Query.Views.{Reads, PaymentDto, get_payment, get_by_ref, list_refunds}
use payment_module.Query.Cursor.{CursorCodec}
use payment_module.Query.Listing.{ListPaymentsResult, list_payments}
use payment_module.Http.Replies.{Reply, content, json_type, write_error, invalid_payment_id}
use payment_module.Http.Refunds.{
  RefundView, RefundPaymentSummary, to_refund, to_refund_payment_summary,
}

pub record PaymentPageMeta : Type 0 where
  pub count : ℕ
  pub next_cursor : String
  pub has_more : Bool

pub record PaymentPage : Type 0 where
  pub data_of_page : List PaymentDto
  pub meta : PaymentPageMeta

pub record RefundListResponse : Type 0 where
  pub payment : RefundPaymentSummary
  pub data_of_list : List RefundView

-- The library calls: time.Parse of RFC 3339, strconv.Atoi, and the JSON of the responses.
pub record ReadCodec : Type 0 where
  pub parse_rfc3339 : String → Option Time
  pub atoi : String → Option ℤ
  pub marshal_payment : PaymentDto → List ℕ
  pub marshal_page : PaymentPage → List ℕ
  pub marshal_refunds : RefundListResponse → List ℕ

pub record ListParams : Type 0 where
  pub from : Option Time
  pub to : Option Time
  pub cursor : String
  pub limit : ℤ

module _ (codec : ReadCodec) where
  time_value : (name : String) → Option Time → Result (Option Time)
  time_value name none = err (invalid_input (name <> " must be an RFC 3339 timestamp"))
  time_value name (some t) = ok (some t)

  unfoldable pub time_param : (name value : String) → Result (Option Time)
  unfolding time_value
  time_param name value =
      if is_empty value then ok none else time_value name (codec.parse_rfc3339 value)

  limit_value : Option ℤ → Result ℤ
  limit_value none = err (invalid_input "limit must be a positive integer")
  limit_value (some n) =
      if ltb_ℤ n (pos 1) then err (invalid_input "limit must be a positive integer") else ok n

  unfoldable pub limit_param : (value : String) → Result ℤ
  unfolding limit_value
  limit_param value = if is_empty value then ok (pos 0) else limit_value (codec.atoi value)

  -- The loop over a map of two names, which Go goes through in either order.
  unfoldable pub time_params :
      (to_first : Bool) → (String → String) → Result (Option Time × Option Time)
  unfolding time_param
  time_params true get = do
    to ← time_param "to" (get "to")
    from ← time_param "from" (get "from")
    ok (from, to)
  time_params false get = do
    from ← time_param "from" (get "from")
    to ← time_param "to" (get "to")
    ok (from, to)

  -- The function is that of url.Values.Get, which gives "" for a missing parameter.
  unfoldable pub parse_list_params : (to_first : Bool) → (String → String) → Result ListParams
  unfolding time_params limit_param
  parse_list_params to_first get = do
    times ← time_params to_first get
    limit ← limit_param (get "limit")
    ok (record { from = times.0; to = times.1; cursor = get "cursor"; limit = limit })

  json_reply : List ℕ → Reply
  json_reply body = record { status = 200; header = json_type ∷ []; body = content body }

  unfoldable pub payment_page : ListPaymentsResult → PaymentPage
  payment_page r = record {
    data_of_page = r.payments;
    meta = record {
      count = length r.payments;
      next_cursor = r.next_cursor;
      has_more = not (is_empty r.next_cursor);
    };
  }

  unfoldable pub write_payment_list : ListPaymentsResult → Reply
  unfolding payment_page json_reply
  write_payment_list r = json_reply (codec.marshal_page (payment_page r))

  unfoldable pub list_reply : Result ListPaymentsResult → Reply
  unfolding write_payment_list
  list_reply (err e) = write_error e
  list_reply (ok r) = write_payment_list r

  payment_reply : Result PaymentDto → Reply
  unfolding json_reply
  payment_reply (err e) = write_error e
  payment_reply (ok dto) = json_reply (codec.marshal_payment dto)

  module _ (cursors : CursorCodec) (like : String → String → Bool) (s : Session)
      (rows : List PaymentRow) (caller : String) where
    unfoldable pub listed_for :
        (get : String → String) → Result ListParams → Result ListPaymentsResult
    listed_for get (err e) = err e
    listed_for get (ok params) = list_payments cursors like s rows (record {
      status = get "status";
      caller_service = caller;
      from = params.from;
      to = params.to;
      cursor = params.cursor;
      limit = params.limit;
    })

    -- ListPayments
    unfoldable pub serve_payments : (to_first : Bool) → (get : String → String) → Reply
    unfolding listed_for list_reply
    serve_payments to_first get = list_reply (listed_for get (parse_list_params to_first get))

  module _ {C : Type 0} (reads : Reads C) (caller : String) where
    -- GetPayment, for the id in the path, where it is a UUID
    unfoldable pub serve_payment : Option Uuid → C → Reply × C
    unfolding payment_reply
    serve_payment none c = (write_error invalid_payment_id, c)
    serve_payment (some id) c =
        let (r, c') = get_payment reads id caller false c in (payment_reply r, c')

    -- GetPaymentByRef
    unfoldable pub serve_by_ref : (reference_id : String) → C → Reply × C
    unfolding payment_reply
    serve_by_ref reference_id c =
        let (r, c') = get_by_ref reads reference_id caller c in (payment_reply r, c')

    refunds_reply : Result Payment → Reply
    unfolding json_reply
    refunds_reply (err e) = write_error e
    refunds_reply (ok p) = json_reply (
        codec.marshal_refunds (record {
          payment = to_refund_payment_summary reads.show p;
          data_of_list = map (to_refund reads.show) p.refunds;
        }))

    -- ListRefunds
    unfoldable pub serve_refunds : Option Uuid → Reply
    unfolding refunds_reply
    serve_refunds none = write_error invalid_payment_id
    serve_refunds (some id) = refunds_reply (list_refunds reads id caller)
