-- ===== src/Query/Listing.antt =====
-- list_payments.go, cursor.go and AdminListPayments of internal/application/query, with ListFilter of
-- domain/payment/repository.go and ListPaginated of adapter/outbound/postgres/payment_repo.go.
use payment_module.Common.Windows.{limited, last_of}
use payment_module.Query.Views.{PaymentDto, to_dto}
use payment_module.Common.{
  ℕ, String, ◌<>◌, Bool, true, false, ◌&&◌, ◌||◌, Option, none, some, List, ltb, ◌==◌, str_eq,
  is_empty, if◌then◌else◌, map, length, ◌+◌,
}
use payment_module.Common.Int.{ℤ, pos, negsuc, ltb_ℤ, leb_ℤ, eqb_ℤ}
use payment_module.Common.Ordered.{keep, greatest_first}
use payment_module.Errors.{◌>>=◌, Result, ok, internal, ◌>>◌, err, invalid_input}
use payment_module.Domain.Status.{status_text}
use payment_module.Domain.Types.{Time, Payment}
use payment_module.Store.Rows.{PaymentRow, to_domain}
use payment_module.Store.Save.{Session, run, read_list}
use payment_module.Query.Cursor.{PageKey, CursorCodec, encode_cursor, decode_cursor}

-- Without After and Limit, which are arguments.
pub record ListFilter : Type 0 where
  pub status : String
  pub caller_service : String
  pub gateway_type : String
  pub reference_id : String
  pub from : Option Time
  pub to : Option Time

abbrev pub key_of : PaymentRow → PageKey
key_of row = record { created_at = row.created_at; id = row.id }

-- (created_at, id) < ($1, $2); PostgreSQL orders UUIDs as their numbers.
abbrev pub key_before : PageKey → PageKey → Bool
key_before a b =
    ltb_ℤ a.created_at b.created_at || (eqb_ℤ a.created_at b.created_at && ltb a.id b.id)

abbrev pub row_before : PaymentRow → PaymentRow → Bool
row_before a b = key_before (key_of a) (key_of b)

abbrev is_live : Option Time → Bool
is_live none = true
is_live (some t) = false

abbrev since : Option Time → Time → Bool
since none at = true
since (some t) at = leb_ℤ t at

abbrev until : Option Time → Time → Bool
until none at = true
until (some t) at = leb_ℤ at t

abbrev pub is_after : Option PageKey → PaymentRow → Bool
is_after none row = true
is_after (some k) row = key_before (key_of row) k

abbrev equal_if : String → String → Bool
equal_if wanted value = is_empty wanted || str_eq value wanted

unfoldable pub clamp_limit : (requested : ℤ) → (default : ℕ) → ℕ
clamp_limit (pos n) default = if n == 0 then default else if ltb 100 n then 100 else n
clamp_limit (negsuc n) default = default

-- `like` is SQL's LIKE.
module _ (like : (value pattern : String) → Bool) where
  -- The conditions on a row, but for the last.
  unfoldable pub matches : ListFilter → PaymentRow → Bool
  matches f row =
      is_live row.deleted_at
      && equal_if f.status (status_text row.status)
      && equal_if f.caller_service row.caller_service
      && equal_if f.gateway_type row.gateway_type
      && (is_empty f.reference_id || like row.reference_id (f.reference_id <> "%"))
      && since f.from row.created_at
      && until f.to row.created_at

  -- Every row that the query finds, newest first.
  unfoldable pub listed : ListFilter → Option PageKey → List PaymentRow → List PaymentRow
  unfolding matches keep greatest_first
  listed f after rows =
      greatest_first row_before (keep (λ row. matches f row && is_after after row) rows)

  unfoldable pub list_paginated :
      Session
      → ListFilter
      → (after : Option PageKey) → (limit : ℕ) → List PaymentRow
      → Result (List Payment)
  unfolding listed limited
  list_paginated s f after limit rows = do
    run (s.fault read_list) (λ e. internal "list payments" (some e))
    let n : ℕ = if limit == 0 then 50 else limit in
        ok (map to_domain (limited n (listed f after rows)))

pub record ListPaymentsResult : Type 0 where
  pub payments : List PaymentDto
  pub next_cursor : String

module _ (codec : CursorCodec) where
  unfoldable pub cursor_after : Option Payment → String
  cursor_after none = ""
  cursor_after (some p) = encode_cursor codec (record { created_at = p.created_at; id = p.id })

  -- The page that listPage makes of the rows it got, of which one may be too many.
  unfoldable pub page_of : (limit : ℕ) → List Payment → ListPaymentsResult
  unfolding limited last_of cursor_after
  page_of limit payments =
      if ltb limit (length payments)
      then record {
        payments = map (to_dto codec.show) (limited limit payments);
        next_cursor = cursor_after (last_of (limited limit payments));
      }
      else record { payments = map (to_dto codec.show) payments; next_cursor = "" }

  unfoldable pub list_page :
      (like : String → String → Bool)
      → Session
      → List PaymentRow
      → ListFilter
      → (cursor : String) → (limit : ℕ) → Result ListPaymentsResult
  unfolding page_of
  list_page like s rows f cursor limit = do
    after ← decode_cursor codec cursor
    payments ← list_paginated like s f after (limit + 1) rows
    ok (page_of limit payments)

pub record ListPaymentsQuery : Type 0 where
  pub status : String
  pub caller_service : String
  pub from : Option Time
  pub to : Option Time
  pub cursor : String
  pub limit : ℤ

pub record AdminListPaymentsQuery : Type 0 where
  pub status : String
  pub caller_service : String
  pub gateway_type : String
  pub reference_id : String
  pub from : Option Time
  pub to : Option Time
  pub cursor : String
  pub limit : ℤ

module _ (codec : CursorCodec) (like : String → String → Bool) (s : Session)
    (rows : List PaymentRow) where
  -- ListPaymentsHandler.Handle
  unfoldable pub list_payments : ListPaymentsQuery → Result ListPaymentsResult
  unfolding clamp_limit
  list_payments q =
      if is_empty q.caller_service
      then err (invalid_input "caller_service is required")
      else list_page codec like s rows
          (record {
            status = q.status;
            caller_service = q.caller_service;
            gateway_type = "";
            reference_id = "";
            from = q.from;
            to = q.to;
          })
          q.cursor (clamp_limit q.limit 50)

  -- AdminListPaymentsHandler.Handle
  unfoldable pub admin_list_payments : AdminListPaymentsQuery → Result ListPaymentsResult
  unfolding clamp_limit
  admin_list_payments q =
      list_page codec like s rows
        (record {
          status = q.status;
          caller_service = q.caller_service;
          gateway_type = q.gateway_type;
          reference_id = q.reference_id;
          from = q.from;
          to = q.to;
        })
        q.cursor (clamp_limit q.limit 20)
