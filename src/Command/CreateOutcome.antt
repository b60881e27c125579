-- ===== src/Command/CreateOutcome.antt =====
-- The success branch of CreatePaymentHandler.Handle (create_payment.go), after the gateway answered.
use payment_module.Common.{◌≡◌, arith}
use payment_module.Errors.{ok}
use payment_module.Domain.Types.{Payment, Time}
use payment_module.Domain.Status.{Status}
use payment_module.Domain.Aggregate.{mark_pending, mark_completed, mark_failed}
use payment_module.Ports.Gateway.{GatewayResponse, TransactionStatus}
use payment_module.Store.Save
use payment_module.Store.Save.{Session}
use payment_module.Command.World.{lift, pure, ◌>>=◌, World, Env, lift, pure, ◌>>=◌}
use payment_module.Command.Calls.{save}
use payment_module.Command.Yields.{Yields, Yields-any, Yields-bind, Yields-lift_bind, Yields-pure}
use payment_module.Command.Create.{
  stored_charge, conclude, CreatePaymentResult, answered, finish_at_once,
}

-- The status of a payment after its charge was answered.
abbrev pub status_after : TransactionStatus → Status
status_after TransactionStatus.settled = Status.completed
status_after TransactionStatus.failed = Status.failed
status_after _ = Status.pending

-- The payment `s` is `p` after the answer `resp`.
pub record Charged (resp : GatewayResponse) (p s : Payment) : Type 0 where
  pub same_id : s.id ≡ p.id
  pub same_amount : s.amount ≡ p.amount
  pub transaction : s.gateway_transaction_id ≡ resp.gateway_transaction_id
  pub status : s.status ≡ status_after resp.status

mark_pending-Charged :
    (at : Time) (resp : GatewayResponse) (p q : Payment)
    → mark_pending at resp.gateway_transaction_id resp.raw_response p ≡ ok q
    → (q.id ≡ p.id)
      × (q.amount ≡ p.amount)
      × (q.gateway_transaction_id ≡ resp.gateway_transaction_id)
      × (q.status ≡ Status.pending)
unfolding mark_pending
mark_pending-Charged at resp p q e = ground arith

finish-Charged :
    (at paid_at : Time) (resp : GatewayResponse) (p q s : Payment)
    → (q.id ≡ p.id)
      × (q.amount ≡ p.amount)
      × (q.gateway_transaction_id ≡ resp.gateway_transaction_id)
      × (q.status ≡ Status.pending)
    → finish_at_once at paid_at resp.status q ≡ ok s
    → Charged resp p s
unfolding finish_at_once mark_completed mark_failed
finish-Charged at paid_at resp p q s h e = record {
  same_id = ground (arith, h);
  same_amount = ground (arith, h);
  transaction = ground (arith, h);
  status = ground (arith, h);
}

save-Charged :
    (env : Env) (resp : GatewayResponse) (p r : Payment)
    → Charged resp p r
    → Yields (Charged resp p) (save env r)
unfolding save Save.save Save.saved
save-Charged env resp p r h = record {
  at = λ w s e. record {
    same_id = ground (arith, h.same_id, h);
    same_amount = ground (arith, h.same_amount, h);
    transaction = ground (arith, h.transaction, h);
    status = ground (arith, h.status, h);
  };
}

module _ (env : Env) (resp : GatewayResponse) (p : Payment) where
  stored_charge-Charged :
      (r : Payment)
      → Charged resp p r
      → Yields (λ res. Charged resp p res.payment) (stored_charge env resp r)
  unfolding stored_charge
  stored_charge-Charged r h =
      Yields-bind (Charged resp p) (save env r)
        (λ s. pure (record { payment = s; next_action = resp.next_action }))
        (save-Charged env resp p r h)
        λ s k. Yields-pure (record { payment = s; next_action = resp.next_action }) k

  finished-Charged :
      (q : Payment)
      → (q.id ≡ p.id)
        × (q.amount ≡ p.amount)
        × (q.gateway_transaction_id ≡ resp.gateway_transaction_id)
        × (q.status ≡ Status.pending)
      → (paid_at at : Time)
      → Yields
          (λ res. Charged resp p res.payment)
          (lift (finish_at_once at paid_at resp.status q) >>= stored_charge env resp)
  finished-Charged q h paid_at at =
      Yields-lift_bind (finish_at_once at paid_at resp.status q) (stored_charge env resp)
        λ r e. stored_charge-Charged r (finish-Charged at paid_at resp p q r h e)

  conclude-Charged :
      (q : Payment)
      → (q.id ≡ p.id)
        × (q.amount ≡ p.amount)
        × (q.gateway_transaction_id ≡ resp.gateway_transaction_id)
        × (q.status ≡ Status.pending)
      → Yields (λ res. Charged resp p res.payment) (conclude env resp q)
  unfolding conclude
  conclude-Charged q h = search (Yields-any, finished-Charged q h)

  pended-Charged :
      (at : Time)
      → Yields
          (λ res. Charged resp p res.payment)
          (lift (mark_pending at resp.gateway_transaction_id resp.raw_response p)
            >>= conclude env resp)
  pended-Charged at =
      Yields-lift_bind (mark_pending at resp.gateway_transaction_id resp.raw_response p)
        (conclude env resp) λ q e. conclude-Charged q (mark_pending-Charged at resp p q e)

  charged :
      (started : Time)
      → Yields (λ res. Charged resp p res.payment) (answered env p started (ok resp))
  unfolding answered
  charged started = search (Yields-any, pended-Charged)

-- When a creation whose charge the gateway answered succeeds, the payment that it returns is the
-- payment that was charged, with the gateway's transaction id, and completed, failed or pending as the
-- gateway's answer was settled, failed or anything else.
pub answered-Charged :
    (env : Env) (p : Payment) (started : Time) (resp : GatewayResponse) (w : World)
    (res : CreatePaymentResult)
    → (answered env p started (ok resp) w).0 ≡ ok res
    → Charged resp p res.payment
answered-Charged env p started resp w res e = (charged env resp p started).at w res e
