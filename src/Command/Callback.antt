-- ===== src/Command/Callback.antt =====
-- internal/application/command/process_callback.go
use payment_module.Common.{
  ℕ, String, ◌<>◌, Bool, true, false, not, ◌&&◌, ◌||◌, Option, none, some, List, [], ◌∷◌, is_empty,
  if◌then◌else◌,
}
use payment_module.Common.Int.{pos, eqb_ℤ}
use payment_module.Errors.{Result, ok, err, Code, is_code, invalid_input}
use payment_module.Domain.Status.{is_initiated, is_terminal, was_paid, refund_pending}
use payment_module.Domain.Types.{Uuid, Payment, Refund}
use payment_module.Domain.Aggregate.{mark_pending, mark_completed, mark_failed}
use payment_module.Domain.Refunds.{find_refund, complete_refund}
use payment_module.Ports.Gateway.{
  Gateway, WebhookNotification, RefundNotification, TransactionStatus, is_settled, is_failed,
}
use payment_module.Command.World.{
  Env, Action, pure, raise, lift, attempt, done, warn, complain, ◌>>=◌, ◌>>◌,
}
use payment_module.Command.Calls.{
  now, find_by_id, find_by_gateway_transaction_id, save, drop_cached,
}

pub record ProcessCallbackCommand : Type 0 where
  pub gateway_type : String
  pub raw_payload : List ℕ
  pub headers : List (String × List String)

-- What applyRefundNotifications does with one entry.
pub data Verdict : Type 0 where
  foreign settled_before mismatch : Verdict
  confirms : Refund → Verdict

abbrev amounts_differ : RefundNotification → Refund → Bool
amounts_differ rn r = not (eqb_ℤ rn.amount (pos 0)) && not (eqb_ℤ rn.amount r.amount)

judge : RefundNotification → Option Refund → Verdict
judge rn none = foreign
judge rn (some r) =
    if not (refund_pending r.status)
    then settled_before
    else if amounts_differ rn r
    then mismatch
    else confirms r

-- `p.Refund(id)`, if the key is a UUID.
keyed_refund : Option Uuid → Payment → Option Refund
keyed_refund none p = none
keyed_refund (some id) p = find_refund id p.refunds

unfoldable pub verdict : (String → Option Uuid) → RefundNotification → Payment → Verdict
unfolding judge keyed_refund
verdict parse rn p = judge rn (keyed_refund (parse rn.refund_key) p)

module _ (env : Env) where
  -- One round of the loop: the payment afterwards, and whether it changed.
  unfoldable pub apply_verdict :
      RefundNotification → Verdict → Payment → Bool → Action (Payment × Bool)
  apply_verdict rn foreign p changed = do
    warn "gateway reports a refund PayGate did not request"
    pure (p, changed)
  apply_verdict rn settled_before p changed = pure (p, changed)
  apply_verdict rn mismatch p changed = do
    complain "gateway refund amount differs from the requested amount; left PENDING for review"
    pure (p, changed)
  apply_verdict rn (confirms r) p changed = do
    at ← now env
    q ← lift (complete_refund env.show at r.id rn.gateway_refund_id p)
    pure (q, true)

  unfoldable pub apply_refund_notifications :
      List RefundNotification → Payment → Bool → Action (Payment × Bool)
  apply_refund_notifications [] p changed = pure (p, changed)
  apply_refund_notifications (rn ∷ rns) p changed = do
    t ← apply_verdict rn (verdict env.parse rn p) p changed
    apply_refund_notifications rns t.0 t.1

  -- A final status for an INITIATED payment first records the transaction.
  unfoldable pub adopt_transaction : WebhookNotification → Payment × Bool → Action (Payment × Bool)
  adopt_transaction n (p, changed) =
      if is_initiated p.status
        && not (is_empty n.gateway_transaction_id)
        && (is_settled n.status || is_failed n.status)
      then (do
        at ← now env
        q ← lift (mark_pending at n.gateway_transaction_id none p)
        pure (q, true))
      else pure (p, changed)

  -- The switch on the notification's status, for a payment that is still open.
  unfoldable pub settle_status :
      WebhookNotification → TransactionStatus → Payment → Bool → Action (Payment × Bool)
  settle_status n TransactionStatus.settled p changed = do
    paid_at ← now env
    at ← now env
    q ← lift (mark_completed at paid_at p)
    pure (q, true)
  settle_status n TransactionStatus.failed p changed = do
    at ← now env
    q ← lift (mark_failed at n.gateway_status ("gateway status: " <> n.gateway_status) p)
    pure (q, true)
  settle_status n _ p changed = pure (p, changed)

  unfoldable pub report_late_money : WebhookNotification → Payment → Action (Unit {0})
  report_late_money n p =
      if is_settled n.status && not (was_paid p.status)
      then complain "gateway reports money received for a closed payment; refund the customer"
      else done

  unfoldable pub apply_status : WebhookNotification → Payment × Bool → Action (Payment × Bool)
  unfolding settle_status report_late_money
  apply_status n (p, changed) =
      if not (is_terminal p.status)
      then settle_status n n.status p changed
      else (do report_late_money n p; pure (p, changed))

  -- What a notification does to the payment in memory.
  unfoldable pub apply_notification : WebhookNotification → Payment → Action (Payment × Bool)
  apply_notification n p = do
    t ← apply_refund_notifications n.refunds p false
    u ← adopt_transaction n t
    apply_status n u

  find_fallback : WebhookNotification → Result Payment → Action Payment
  find_fallback n (ok p) = pure p
  find_fallback n (err e) =
      if not (is_code e Code.not_found)
      then raise e
      else find_by_gateway_transaction_id env n.gateway_transaction_id

  find_with : WebhookNotification → Option Uuid → Action Payment
  find_with n none = find_by_gateway_transaction_id env n.gateway_transaction_id
  find_with n (some id) = do r ← attempt (find_by_id env id); find_fallback n r

  unfoldable pub find_payment : WebhookNotification → Action Payment
  unfolding find_with find_fallback
  find_payment n = find_with n (env.parse n.payment_id)

  unfoldable pub store_if : Payment × Bool → Action (Unit {0})
  store_if (p, false) = done
  store_if (p, true) = do stored ← save env p; drop_cached env stored

  unfoldable pub callback_gateway : ProcessCallbackCommand → Action Gateway
  callback_gateway cmd = elim (env.factory cmd.gateway_type) [
    | ok gw ↦ pure gw
    | err e ↦ raise (invalid_input ("unknown gateway: " <> cmd.gateway_type))
  ]

  -- ParseWebhook, with the warning about a rejected one.
  unfoldable pub parsed : Result WebhookNotification → Action WebhookNotification
  parsed (ok n) = pure n
  parsed (err e) = do warn "webhook rejected"; raise e

  unfoldable pub handle : ProcessCallbackCommand → Action (Unit {0})
  unfolding callback_gateway parsed store_if
  handle cmd = do
    gw ← callback_gateway cmd
    n ← parsed (gw.parse_webhook cmd.raw_payload cmd.headers)
    p ← find_payment n
    t ← apply_notification n p
    store_if t
