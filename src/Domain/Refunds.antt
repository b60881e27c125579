-- ===== src/Domain/Refunds.antt =====
-- internal/domain/payment/refund.go: the refunds inside the Payment aggregate. `show` is
-- uuid.UUID's String and `print` the decimal rendering of `fmt`; both are only put into messages.
use payment_module.Common.{
  String, ◌<>◌, Bool, not, ◌&&◌, Option, none, some, List, [], ◌∷◌, ◌++◌, ◌==◌, str_eq, is_empty,
  is_some, if◌then◌else◌,
}
use payment_module.Common.Int.{pos, leb_ℤ, ltb_ℤ}
use payment_module.Common.Int64.{Int64, add, sub}
use payment_module.Errors.{Result, ok, err, invalid_input, invalid_state, already_exists, not_found}
use payment_module.Domain.Status.{
  Status, status_text, is_completed, is_partially_refunded, RefundStatus, refund_status_text,
  refund_pending, refund_succeeded, refund_failed,
}
use payment_module.Domain.Types.{
  Time, Uuid, Refund, Payment, refund_requested, refund_completed, refund_declined,
}
use payment_module.Domain.Aggregate.{raise}

-- The loop `for _, r := range p.Refunds { if … { sum += r.Amount } }`.
unfoldable pub sum_amounts : (RefundStatus → Bool) → Int64 → List Refund → Int64
sum_amounts counts sum [] = sum
sum_amounts counts sum (r ∷ rs) =
    sum_amounts counts (if counts r.status then add sum r.amount else sum) rs

unfoldable pub refunded_amount : Payment → Int64
refunded_amount p = sum_amounts refund_succeeded (pos 0) p.refunds

unfoldable pub refundable_amount : Payment → Int64
refundable_amount p =
    sub p.amount.amount (sum_amounts (λ s. not (refund_failed s)) (pos 0) p.refunds)

unfoldable pub find_refund : Uuid → List Refund → Option Refund
find_refund id [] = none
find_refund id (r ∷ rs) = if r.id == id then some r else find_refund id rs

unfoldable pub find_reference : String → List Refund → Option Refund
find_reference ref [] = none
find_reference ref (r ∷ rs) = if str_eq r.reference_id ref then some r else find_reference ref rs

-- The write through the *Refund that `p.Refund(id)` returned: the first refund with that ID.
unfoldable pub put_refund : Uuid → Refund → List Refund → List Refund
put_refund id r' [] = []
put_refund id r' (r ∷ rs) = if r.id == id then r' ∷ rs else r ∷ put_refund id r' rs

unfoldable pub pending_refund : Time → Uuid → String → Int64 → String → String → Payment → Refund
pending_refund now new_id reference_id amount reason requested_by p = record {
  id = new_id;
  payment_id = p.id;
  reference_id = reference_id;
  amount = amount;
  reason = reason;
  status = RefundStatus.pending;
  gateway_refund_id = "";
  failure_reason = "";
  requested_by = requested_by;
  created_at = now;
  updated_at = now;
  completed_at = none;
}

unfoldable pub request_refund :
    (print : Int64 → String)
    → Time
    → Uuid
    → String
    → Int64
    → String
    → String
    → Payment
    → Result (Payment × Refund)
unfolding pending_refund
request_refund print now new_id reference_id amount reason requested_by p =
    if not (is_completed p.status) && not (is_partially_refunded p.status)
    then err (
        invalid_state
          ("only completed payments can be refunded, current: " <> status_text p.status))
    else if is_empty reference_id
    then err (invalid_input "refund reference_id is required")
    else if is_some (find_reference reference_id p.refunds)
    then err (already_exists ("refund already exists for reference_id: " <> reference_id))
    else if leb_ℤ amount (pos 0)
    then err (invalid_input "refund amount must be positive")
    else if ltb_ℤ (refundable_amount p) amount
    then err (
        invalid_input (
          "refund amount "
          <> (print amount <> (" exceeds refundable amount " <> print (refundable_amount p)))))
    else ok (
        let opened = pending_refund now new_id reference_id amount reason requested_by p in
        (
          raise (refund_requested p.id new_id amount now)
              (record p { refunds = p.refunds ++ opened ∷ []; updated_at = now }),
          opened,
        ))

-- The *Refund after its fields were set by `CompleteRefund`.
abbrev pub confirmed_refund : Time → String → Refund → Refund
confirmed_refund now gateway_refund_id r = record r {
  status = RefundStatus.succeeded;
  gateway_refund_id = gateway_refund_id;
  updated_at = now;
  completed_at = some now;
}

-- `CompleteRefund` once the refund is found PENDING.
unfoldable pub confirm : Time → String → Refund → Payment → Payment
confirm now gateway_refund_id r p =
    let q : Payment = record p {
      refunds = put_refund r.id (confirmed_refund now gateway_refund_id r) p.refunds;
    } in
    let done : Status =
      (if leb_ℤ p.amount.amount (refunded_amount q)
        then Status.refunded
        else Status.partially_refunded) in
    raise (refund_completed p.id r.id r.amount (refunded_amount q) done now)
      (record q { status = done; updated_at = now })

unfoldable pub complete_found : Time → String → String → Option Refund → Payment → Result Payment
complete_found now shown gateway_refund_id none p = err (not_found ("refund not found: " <> shown))
complete_found now shown gateway_refund_id (some r) p = elim r.status [
  | RefundStatus.succeeded ↦ ok p
  | RefundStatus.failed ↦ err (invalid_state ("refund " <> (shown <> " already failed")))
  | RefundStatus.pending ↦ ok (confirm now gateway_refund_id r p)
]

unfoldable pub complete_refund : (Uuid → String) → Time → Uuid → String → Payment → Result Payment
unfolding complete_found confirm
complete_refund show now refund_id gateway_refund_id p =
    complete_found now (show refund_id) gateway_refund_id (find_refund refund_id p.refunds) p

-- `FailRefund` once the refund is found PENDING.
unfoldable pub decline : Time → String → Refund → Payment → Payment
decline now reason r p =
    let r' : Refund = record r {
      status = RefundStatus.failed;
      failure_reason = reason;
      updated_at = now;
    } in
    raise (refund_declined p.id r.id reason now)
      (record p { refunds = put_refund r.id r' p.refunds; updated_at = now })

unfoldable pub fail_found : Time → String → String → Option Refund → Payment → Result Payment
fail_found now shown reason none p = err (not_found ("refund not found: " <> shown))
fail_found now shown reason (some r) p =
    if not (refund_pending r.status)
    then err
        (invalid_state ("can only fail a PENDING refund, current: " <> refund_status_text r.status))
    else ok (decline now reason r p)

unfoldable pub fail_refund : (Uuid → String) → Time → Uuid → String → Payment → Result Payment
unfolding fail_found decline
fail_refund show now refund_id reason p =
    fail_found now (show refund_id) reason (find_refund refund_id p.refunds) p
