-- ===== src/Command/ReconcileRefunds.antt =====
-- reconcileRefunds, RunOnce and Run of internal/application/command/reconcile.go
use payment_module.Common.{String, Bool, true, false, some, List, [], ◌∷◌, if◌then◌else◌, not}
use payment_module.Common.Int.{leb_ℤ, ◌-ℤ◌}
use payment_module.Errors.{Result, ok, err}
use payment_module.Domain.Status.{refund_pending}
use payment_module.Domain.Types.{Time, Payment, Refund}
use payment_module.Ports.Gateway.{Gateway, TransactionState, RefundResult}
use payment_module.Command.World.{
  Env, Action, pure, attempt, lift, done, warn, complain, ◌>>=◌, ◌>>◌,
}
use payment_module.Command.Calls.{now, find_awaiting_charge_outcome, find_with_pending_refunds}
use payment_module.Command.Locked.{Tick, locked, each_tick}
use payment_module.Command.Refund.{call_refund, apply_decision}
use payment_module.Command.Callback.{apply_refund_notifications}
use payment_module.Command.Reconcile.{
  ReconcileConfig, oldest_pending_refund, lookup, store, reconcile_charge,
}

abbrev pub reconcile_lock_key : String
reconcile_lock_key = "lock:reconciler"

module _ (env : Env) (cfg : ReconcileConfig) where
  unfoldable pub applied : Payment → Bool → Result Payment → Action (Payment × Bool)
  applied p changed (ok q) = pure (q, true)
  applied p changed (err e) = do complain "reconciler: apply refund retry"; pure (p, changed)

  unfoldable pub resent : Refund → Payment → Bool → Result RefundResult → Action (Payment × Bool)
  unfolding applied
  resent r p changed (err e) = do warn "reconciler: refund retry outcome unknown"; pure (p, changed)
  resent r p changed (ok res) = do
    at ← now env
    q ← attempt (lift (apply_decision env r.id res at p))
    applied p changed q

  -- One refund of the loop, at an age of now - CreatedAt.
  unfoldable pub retry_refund : Gateway → Time → Refund → Payment → Bool → Action (Payment × Bool)
  unfolding resent
  retry_refund gw at r p changed =
      if not (refund_pending r.status)
      then pure (p, changed)
      else if leb_ℤ cfg.refund_give_up_after (at -ℤ r.created_at)
      then (do
        complain "reconciler: refund still PENDING past the retry window; needs manual review"
        pure (p, changed))
      else if leb_ℤ cfg.refund_retry_after (at -ℤ r.created_at)
      then (do res ← call_refund env gw p r; resent r p changed res)
      else pure (p, changed)

  -- The loop over p.Refunds; each refund is settled by its own ID only, so the later ones are still as
  -- the loop found them.
  unfoldable pub retry_refunds :
      Gateway → Time → List Refund → Payment → Bool → Action (Payment × Bool)
  retry_refunds gw at [] p changed = pure (p, changed)
  retry_refunds gw at (r ∷ rs) p changed = do
    t ← retry_refund gw at r p changed
    retry_refunds gw at rs t.0 t.1

  unfoldable pub store_if : Payment × Bool → Action (Unit {0})
  store_if (p, true) = store env (some p)
  store_if (p, false) = done

  unfoldable pub retry_after : Gateway → Result (Payment × Bool) → Action (Unit {0})
  unfolding store_if
  retry_after gw (err e) = complain "reconciler: apply gateway refunds"
  retry_after gw (ok (p, changed)) = do
    at ← now env
    t ← retry_refunds gw at p.refunds p changed
    store_if t

  unfoldable pub settle_refunds : Gateway → Payment → Result TransactionState → Action (Unit {0})
  unfolding retry_after
  settle_refunds gw p (err e) = warn "reconciler: refund status unavailable, retrying next pass"
  settle_refunds gw p (ok state) = do
    r ← attempt (apply_refund_notifications env state.refunds p false)
    retry_after gw r

  unfoldable pub refunds_at : Result Gateway → Payment → Action (Unit {0})
  refunds_at (err e) p = complain "reconciler: no gateway for payment"
  refunds_at (ok gw) p = do
    state ← lookup env gw p (oldest_pending_refund p.refunds)
    settle_refunds gw p state

  unfoldable pub reconcile_refunds : Payment → Action (Unit {0})
  unfolding refunds_at settle_refunds
  reconcile_refunds p = refunds_at (env.factory p.gateway_type) p

  unfoldable pub each : (Payment → Action (Unit {0})) → List Payment → Action (Unit {0})
  each f [] = done
  each f (p ∷ ps) = do f p; each f ps

  unfoldable pub found : String → Result (List Payment) → Action (List Payment)
  found message (ok ps) = pure ps
  found message (err e) = do complain message; pure []

  unfoldable pub run_once : Action (Unit {0})
  unfolding each found
  run_once = do
    at ← now env
    cs ← attempt (find_awaiting_charge_outcome env (at -ℤ cfg.charge_grace) cfg.batch_size)
    charges ← found "reconciler: find charges awaiting outcome" cs
    each (reconcile_charge env) charges
    rs ← attempt (find_with_pending_refunds env (at -ℤ cfg.refund_grace) cfg.batch_size)
    refunds ← found "reconciler: find pending refunds" rs
    each reconcile_refunds refunds

  -- One tick of Run.
  unfoldable pub tick : Tick → Action (Unit {0})
  unfolding run_once
  tick = locked env reconcile_lock_key run_once

  unfoldable pub run : List Tick → Action (Unit {0})
  unfolding tick
  run = each_tick tick
