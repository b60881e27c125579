-- ===== src/Command/RetrySteps.antt =====
-- Reconciler.reconcileRefunds (reconcile.go) against the operations of the aggregate.
use payment_module.Common.{Bool-cases, inl, inr, arith, ◌≡◌, refl, Bool, true, false, List, [], ◌∷◌}
use payment_module.Errors.{Result, ok, err}
use payment_module.Domain.Types.{Payment, Refund, Time, Uuid}
use payment_module.Domain.Lifecycle.{Step, refund_completes, refund_fails, here}
use payment_module.Ports.Gateway.{Gateway, RefundResult}
use payment_module.Command.World.{World, Env, attempt, lift, pure, complain, ◌>>=◌}
use payment_module.Command.Yields.{Yields, Yields-pure, Yields-any, Yields-if, Yields-bind}
use payment_module.Command.Succeeds.{Succeeds, Succeeds-pure, Succeeds-bind, success_rules}
use payment_module.Command.Refund.{apply_decision, call_refund}
use payment_module.Command.ReconcileRefunds.{applied, resent, retry_refund, retry_refunds}
use payment_module.Command.Reconcile.{ReconcileConfig}
use payment_module.Command.CallbackSteps.{Follows, stepped}

apply_decision-Step :
    (env : Env) (id : Uuid) (res : RefundResult) (at : Time) (p q : Payment)
    → apply_decision env id res at p ≡ ok q
    → Step p q
unfolding apply_decision
apply_decision-Step env id res at p q e = elim (Bool-cases res.accepted) [
  | inl taken ↦ refund_completes env.show at id res.gateway_refund_id (ground (arith, taken))
  | inr declined ↦ refund_fails env.show at id res.decline_reason (ground (arith, declined))
]

module _ (env : Env) (cfg : ReconcileConfig) (p : Payment) where
  applied-Follows :
      (q : Payment) (b : Bool) (r : Result Payment)
      → Follows p (q, b)
      → ((s : Payment) → r ≡ ok s → Step q s)
      → Yields (Follows p) (applied env cfg q b r)
  unfolding applied
  applied-Follows q b (ok s) h step = Yields-pure (s, true) (stepped h (step s refl))
  applied-Follows q b (err e) h step =
      Yields-any (complain "reconciler: apply refund retry") (λ _. pure (q, b))
        λ _. Yields-pure (q, b) h

  decided-Follows :
      (r : Refund) (q : Payment) (b : Bool) (res : RefundResult) (at : Time)
      → Follows p (q, b)
      → Yields
          (Follows p)
          (attempt (lift (apply_decision env r.id res at q)) >>= applied env cfg q b)
  decided-Follows r q b res at h = record {
    at =
        (applied-Follows q b (apply_decision env r.id res at q) h
          (λ s e. apply_decision-Step env r.id res at q s e)).at;
  }

  resent-Follows :
      (r : Refund) (q : Payment) (b : Bool) (res : Result RefundResult)
      → Follows p (q, b)
      → Yields (Follows p) (resent env cfg r q b res)
  unfolding resent
  resent-Follows r q b (err e) h = search (Yields-any, Yields-pure)
  resent-Follows r q b (ok res) h = search (Yields-any, decided-Follows r q b res)

  retry_refund-Follows :
      (gw : Gateway) (at : Time) (r : Refund) (q : Payment) (b : Bool)
      → Follows p (q, b)
      → Yields (Follows p) (retry_refund env cfg gw at r q b)
  unfolding retry_refund
  retry_refund-Follows gw at r q b h =
      search (Yields-any, Yields-if, Yields-pure, resent-Follows) depth 8

  retried :
      (gw : Gateway) (at : Time) (rs : List Refund) (q : Payment) (b : Bool)
      → Follows p (q, b)
      → Yields (Follows p) (retry_refunds env cfg gw at rs q b)
  unfolding retry_refunds
  retried gw at [] q b h = Yields-pure (q, b) h
  retried gw at (r ∷ rs) q b h =
      Yields-bind (Follows p) (retry_refund env cfg gw at r q b)
        (λ t. retry_refunds env cfg gw at rs t.0 t.1) (retry_refund-Follows gw at r q b h)
        λ t k. retried gw at rs t.0 t.1 k

module _ (env : Env) where
  call_refund-Succeeds :
      (gw : Gateway) (p : Payment) (r : Refund) → Succeeds (call_refund env gw p r)
  unfolding call_refund
  call_refund-Succeeds gw p r = search success_rules depth 8

  module _ (cfg : ReconcileConfig) where
    applied-Succeeds :
        (q : Payment) (b : Bool) (r : Result Payment) → Succeeds (applied env cfg q b r)
    unfolding applied
    applied-Succeeds q b (ok s) = search success_rules
    applied-Succeeds q b (err e) = search success_rules

    resent-Succeeds :
        (r : Refund) (q : Payment) (b : Bool) (res : Result RefundResult)
        → Succeeds (resent env cfg r q b res)
    unfolding resent
    resent-Succeeds r q b (ok res) = search (success_rules, applied-Succeeds) depth 8
    resent-Succeeds r q b (err e) = search success_rules

    retry_refund-Succeeds :
        (gw : Gateway) (at : Time) (r : Refund) (q : Payment) (b : Bool)
        → Succeeds (retry_refund env cfg gw at r q b)
    unfolding retry_refund
    retry_refund-Succeeds gw at r q b =
        search (success_rules, call_refund-Succeeds, resent-Succeeds) depth 10

    pub retries :
        (gw : Gateway) (at : Time) (rs : List Refund) (q : Payment) (b : Bool)
        → Succeeds (retry_refunds env cfg gw at rs q b)
    unfolding retry_refunds
    retries gw at [] q b = Succeeds-pure (q, b)
    retries gw at (r ∷ rs) q b =
        Succeeds-bind (retry_refund env cfg gw at r q b)
          (λ t. retry_refunds env cfg gw at rs t.0 t.1) (retry_refund-Succeeds gw at r q b)
          λ t. retries gw at rs t.0 t.1

-- Re-sending a payment's refunds always gives a payment and a flag. Operations of the aggregate lead to
-- that payment, and when the flag reports no change it is the payment that the pass began with.
pub retry_refunds-Follows :
    (env : Env) (cfg : ReconcileConfig) (gw : Gateway) (at : Time) (p : Payment) (w : World)
    → (t : Payment × Bool) × ((retry_refunds env cfg gw at p.refunds p false w).0 ≡ ok t)
      × Follows p t
retry_refunds-Follows env cfg gw at p w =
    let (t, e) = (retries env cfg gw at p.refunds p false).at w in
    (
      t,
      e,
      (retried env cfg p gw at p.refunds p false
            (record { reached = here; unchanged = λ _. refl })).at
          w t e,
    )
