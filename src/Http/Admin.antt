-- ===== src/Http/Admin.antt =====
-- ListPayments and ForceExpire of internal/adapter/inbound/http/admin_handler.go. The handlers of the
-- admin reader are not here.
use payment_module.Common.{ℕ, String, Bool, Option, none, some, List, [], ◌∷◌}
use payment_module.Errors.{Result, ok, err}
use payment_module.Domain.Types.{Uuid}
use payment_module.Store.Rows.{PaymentRow}
use payment_module.Store.Save.{Session}
use payment_module.Command.World.{World, Env}
use payment_module.Command.Cancel.{handle_force_expire}
use payment_module.Query.Cursor.{CursorCodec}
use payment_module.Query.Listing.{ListPaymentsResult, admin_list_payments}
use payment_module.Http.Replies.{Reply, content, json_type, write_error, invalid_payment_id}
use payment_module.Http.Reads.{ReadCodec, ListParams, parse_list_params, list_reply}

module _ (codec : ReadCodec) (cursors : CursorCodec) (like : String → String → Bool) (s : Session)
    (rows : List PaymentRow) where
  listed_for_admin : (get : String → String) → Result ListParams → Result ListPaymentsResult
  listed_for_admin get (err e) = err e
  listed_for_admin get (ok params) = admin_list_payments cursors like s rows (record {
    status = get "status";
    caller_service = get "caller_service";
    gateway_type = get "gateway_type";
    reference_id = get "reference_id";
    from = params.from;
    to = params.to;
    cursor = params.cursor;
    limit = params.limit;
  })

  -- ListPayments
  unfoldable pub serve_admin_payments : (to_first : Bool) → (get : String → String) → Reply
  unfolding listed_for_admin
  serve_admin_payments to_first get =
      list_reply codec (listed_for_admin get (parse_list_params codec to_first get))

-- `marshal_expired` is the JSON of the reply.
module _ (env : Env) (marshal_expired : (payment_id status : String) → List ℕ) where
  expired_reply : Uuid → Result (Unit {0}) → Reply
  expired_reply id (err e) = write_error e
  expired_reply id (ok _) = record {
    status = 200;
    header = json_type ∷ [];
    body = content (marshal_expired (env.show id) "EXPIRED");
  }

  -- ForceExpire, for the id in the path, where it is a UUID
  unfoldable pub force_expire : Option Uuid → World → Reply × World
  unfolding expired_reply
  force_expire none w = (write_error invalid_payment_id, w)
  force_expire (some id) w = let (r, w') = handle_force_expire env id w in (expired_reply id r, w')
