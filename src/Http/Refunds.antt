-- ===== src/Http/Refunds.antt =====
-- internal/adapter/inbound/http/refund_handler.go and webhook_handler.go.
use payment_module.Common.{ℕ, String, Bool, false, Option, none, some, List, [], ◌∷◌, if◌then◌else◌}
use payment_module.Common.Int64.{Int64}
use payment_module.Common.Int.{pos}
use payment_module.Errors.{Result, ok, err}
use payment_module.Domain.Status.{refund_pending, refund_status_text, status_text}
use payment_module.Domain.Types.{Uuid, Time, Refund, Payment}
use payment_module.Domain.Refunds.{refunded_amount, refundable_amount}
use payment_module.Command.World.{World, Env}
use payment_module.Command.Refund
use payment_module.Command.Refund.{RefundPaymentCommand, RefundPaymentResult}
use payment_module.Command.Callback
use payment_module.Http.Replies.{
  Reply, content, json_type, write_error, invalid_json, invalid_payment_id,
}
use payment_module.Http.Payments.{opt_str, deref_str, replay_header}

pub record CreateRefundRequest : Type 0 where
  pub amount : Option Int64
  pub reason : Option String
  pub reference_id : String

-- Refund of openapi_gen.go
pub record RefundView : Type 0 where
  pub refund_id : String
  pub reference_id : String
  pub amount : Int64
  pub status : String
  pub reason : Option String
  pub failure_reason : Option String
  pub gateway_refund_id : Option String
  pub created_at : Time
  pub completed_at : Option Time

pub record RefundPaymentSummary : Type 0 where
  pub payment_id : String
  pub status : String
  pub amount : Int64
  pub refunded_amount : Int64
  pub refundable_amount : Int64

unfoldable pub to_refund : (show : Uuid → String) → Refund → RefundView
to_refund show rf = record {
  refund_id = show rf.id;
  reference_id = rf.reference_id;
  amount = rf.amount;
  status = refund_status_text rf.status;
  reason = opt_str rf.reason;
  failure_reason = opt_str rf.failure_reason;
  gateway_refund_id = opt_str rf.gateway_refund_id;
  created_at = rf.created_at;
  completed_at = rf.completed_at;
}

unfoldable pub to_refund_payment_summary : (show : Uuid → String) → Payment → RefundPaymentSummary
to_refund_payment_summary show p = record {
  payment_id = show p.id;
  status = status_text p.status;
  amount = p.amount.amount;
  refunded_amount = refunded_amount p;
  refundable_amount = refundable_amount p;
}

abbrev or_zero : Option Int64 → Int64
or_zero none = pos 0
or_zero (some n) = n

unfoldable pub refund_command :
    (id : Uuid) → (caller : String) → (admin : Bool) → CreateRefundRequest → RefundPaymentCommand
refund_command id caller admin req = record {
  payment_id = id;
  reference_id = req.reference_id;
  amount = or_zero req.amount;
  reason = deref_str req.reason;
  caller_service = caller;
  admin = admin;
}

abbrev is_pending : Option Refund → Bool
is_pending none = false
is_pending (some r) = refund_pending r.status

-- The status and the headers of an answered refund.
unfoldable pub refund_status : RefundPaymentResult → ℕ
refund_status result =
    if result.replayed then 200 else if is_pending result.refund then 202 else 201

unfoldable pub refund_headers : RefundPaymentResult → List (String × String)
refund_headers result = if result.replayed then replay_header ∷ json_type ∷ [] else json_type ∷ []

abbrev view_of : (Uuid → String) → Option Refund → Option RefundView
view_of show none = none
view_of show (some r) = some (to_refund show r)

-- `marshal` encodes a RefundResponse.
module _ (env : Env) (marshal : Option RefundView → RefundPaymentSummary → List ℕ) where
  unfoldable pub refund_reply : Result RefundPaymentResult → Reply
  unfolding refund_status refund_headers to_refund to_refund_payment_summary
  refund_reply (err e) = write_error e
  refund_reply (ok result) = record {
    status = refund_status result;
    header = refund_headers result;
    body = content (
        marshal (view_of env.show result.refund)
          (to_refund_payment_summary env.show result.payment));
  }

  -- `create`, for the id parsed from the path and the decoded body.
  unfoldable pub create :
      (caller : String)
      → (admin : Bool) → Option Uuid
      → Option CreateRefundRequest
      → World
      → Reply × World
  unfolding refund_command refund_reply
  create caller admin none req w = (write_error invalid_payment_id, w)
  create caller admin (some id) none w = (write_error invalid_json, w)
  create caller admin (some id) (some req) w =
      let (r, w') = Refund.handle env (refund_command id caller admin req) w in (refund_reply r, w')

-- HandleMidtrans, for the payload read from the body; none when reading failed, whose reply is a plain
-- text. `received` is the JSON of the acknowledgement.
webhook_reply : (received : List ℕ) → Result (Unit {0}) → Reply
webhook_reply received (err e) = write_error e
webhook_reply received (ok _) = record {
  status = 200;
  header = json_type ∷ [];
  body = content received;
}

unfoldable pub handle_midtrans :
    (env : Env)
    → (received read_error : List ℕ) → Option (List ℕ)
    → List (String × List String)
    → World
    → Reply × World
unfolding webhook_reply
handle_midtrans env received read_error none header w =
    (record { status = 400; header = []; body = content read_error }, w)
handle_midtrans env received read_error (some payload) header w =
    let (r, w') =
      Callback.handle env
        (record { gateway_type = "MIDTRANS"; raw_payload = payload; headers = header }) w in
    (webhook_reply received r, w')
