-- ===== src/Command/CallbackSteps.antt =====
-- ProcessCallbackHandler (process_callback.go) against the operations of the aggregate.
use payment_module.Command.Calls.{now}
use payment_module.Domain.Aggregate.{mark_pending, mark_completed, mark_failed}
use payment_module.Domain.Refunds.{complete_refund}
use payment_module.Common.{
  ◌≡◌, refl, String, ◌<>◌, is_empty, ◌&&◌, ◌||◌, not, Bool, true, false, List, [], ◌∷◌, none, not,
}
use payment_module.Errors.{Result, ok}
use payment_module.Domain.Types.{Payment, Time}
use payment_module.Domain.Lifecycle.{
  Step, to_pending, to_completed, to_failed, refund_completes, Reach, here, next,
}
use payment_module.Domain.Status.{is_initiated}
use payment_module.Ports.Gateway.{
  WebhookNotification, RefundNotification, TransactionStatus, is_settled, is_failed,
}
use payment_module.Command.World.{◌>>=◌, lift, pure, World, Env}
use payment_module.Command.Yields.{
  Yields, Yields-pure, Yields-lift_bind, Yields-bind, Yields-any, Yields-if, yields_rules,
}
use payment_module.Command.Callback.{
  Verdict, foreign, settled_before, mismatch, confirms, apply_verdict, apply_refund_notifications,
  adopt_transaction, apply_status, apply_notification, settle_status,
}

-- The payment and the flag of the handler, as they follow from the payment that it loaded.
pub record Follows (p : Payment) (t : Payment × Bool) : Type 0 where
  pub reached : Reach p t.0
  pub unchanged : t.1 ≡ false → t.0 ≡ p

pub stepped : {p q r : Payment} {b : Bool} → Follows p (q, b) → Step q r → Follows p (r, true)
stepped f s = record { reached = next f.reached s; unchanged = λ e. cc e }

module _ (env : Env) (p : Payment) where
  -- One operation of the payment, at the present time.
  stamped :
      (q : Payment) (b : Bool) (f : Time → Result Payment)
      → ((at : Time) (s : Payment) → f at ≡ ok s → Step q s)
      → Follows p (q, b)
      → Yields (Follows p) (do at ← now env; s ← lift (f at); pure (s, true))
  stamped q b f step h =
      Yields-any (now env) (λ at. lift (f at) >>= λ s. pure (s, true))
        λ at.
          Yields-lift_bind (f at) (λ s. pure (s, true))
            λ s e. Yields-pure (s, true) (stepped h (step at s e))

  apply_verdict-Follows :
      (rn : RefundNotification) (v : Verdict) (q : Payment) (b : Bool)
      → Follows p (q, b)
      → Yields (Follows p) (apply_verdict env rn v q b)
  unfolding apply_verdict
  apply_verdict-Follows rn foreign q b h = search yields_rules
  apply_verdict-Follows rn settled_before q b h = Yields-pure (q, b) h
  apply_verdict-Follows rn mismatch q b h = search yields_rules
  apply_verdict-Follows rn (confirms r) q b h =
      stamped q b (λ at. complete_refund env.show at r.id rn.gateway_refund_id q)
        (λ at s e. refund_completes env.show at r.id rn.gateway_refund_id e) h

  apply_refund_notifications-Follows :
      (rns : List RefundNotification) (q : Payment) (b : Bool)
      → Follows p (q, b)
      → Yields (Follows p) (apply_refund_notifications env rns q b)
  unfolding apply_refund_notifications
  apply_refund_notifications-Follows [] q b h = Yields-pure (q, b) h
  apply_refund_notifications-Follows (rn ∷ rns) q b h =
      Yields-bind (Follows p) _ _ (apply_verdict-Follows rn _ q b h)
        λ t k. apply_refund_notifications-Follows rns t.0 t.1 k

  adopt_transaction-Follows :
      (n : WebhookNotification) (t : Payment × Bool)
      → Follows p t
      → Yields (Follows p) (adopt_transaction env n t)
  unfolding adopt_transaction
  adopt_transaction-Follows n (q, b) h =
      Yields-if
        (is_initiated q.status
          && not (is_empty n.gateway_transaction_id)
          && (is_settled n.status || is_failed n.status))
        _ _
        (stamped q b (λ at. mark_pending at n.gateway_transaction_id none q)
          (λ at s e. to_pending at n.gateway_transaction_id none e) h)
        (Yields-pure (q, b) h)

  settle_status-Follows :
      (n : WebhookNotification) (s : TransactionStatus) (q : Payment) (b : Bool)
      → Follows p (q, b)
      → Yields (Follows p) (settle_status env n s q b)
  unfolding settle_status
  settle_status-Follows n TransactionStatus.settled q b h =
      Yields-any (now env)
        (λ paid_at. do at ← now env; s ← lift (mark_completed at paid_at q); pure (s, true))
        λ paid_at.
          stamped q b (λ at. mark_completed at paid_at q) (λ at s e. to_completed at paid_at e) h
  settle_status-Follows n TransactionStatus.failed q b h =
      let why : String = "gateway status: " <> n.gateway_status in
      stamped q b (λ at. mark_failed at n.gateway_status why q)
        (λ at s e. to_failed at n.gateway_status why e) h
  settle_status-Follows n _ q b h = Yields-pure (q, b) h

  apply_status-Follows :
      (n : WebhookNotification) (t : Payment × Bool)
      → Follows p t
      → Yields (Follows p) (apply_status env n t)
  unfolding apply_status
  apply_status-Follows n (q, b) h = search (yields_rules, settle_status-Follows)

  notified : (n : WebhookNotification) → Yields (Follows p) (apply_notification env n p)
  unfolding apply_notification
  notified n =
      Yields-bind (Follows p) _ _
        (apply_refund_notifications-Follows n.refunds p false
          (record { reached = here; unchanged = λ _. refl }))
        λ t k.
          Yields-bind (Follows p) _ _ (adopt_transaction-Follows n t k)
            λ u l. apply_status-Follows n u l

-- When a notification is accepted, operations of the aggregate lead from the payment that was loaded to
-- the one that results; when it reports no change, the payment is the one that was loaded.
pub apply_notification-Follows :
    (env : Env) (n : WebhookNotification) (p : Payment) (w : World) (q : Payment) (changed : Bool)
    → (apply_notification env n p w).0 ≡ ok (q, changed)
    → Follows p (q, changed)
apply_notification-Follows env n p w q changed e = (notified env p n).at w (q, changed) e
