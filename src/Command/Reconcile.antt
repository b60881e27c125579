-- ===== src/Command/Reconcile.antt =====
-- internal/application/command/reconcile.go: its configuration, and reconcileCharge.
use payment_module.Common.{
  ℕ, String, Bool, true, false, ◌==◌, Option, none, some, List, [], ◌∷◌, is_empty, if◌then◌else◌,
  ◌*◌, not, ◌<>◌,
}
use payment_module.Common.Int.{ℤ, pos, eqb_ℤ, ◌-ℤ◌}
use payment_module.Errors.{Error, Result, ok, err}
use payment_module.Domain.Status.{refund_pending}
use payment_module.Domain.Types.{Time, Uuid, Payment, Refund}
use payment_module.Domain.Aggregate.{mark_pending, mark_failed, mark_completed}
use payment_module.Ports.Gateway.{Gateway, TransactionState, TransactionStatus}
use payment_module.Ports.Attempt.{Attempt, blank, failed_attempt, GatewayOperation, AttemptOutcome}
use payment_module.Command.World.{pure, attempt, done, warn, complain, Env, Action, ◌>>=◌, ◌>>◌}
use payment_module.Command.Calls.{
  now, get_transaction, cancel_transaction, record_attempt, drop_cached, save,
}
use payment_module.Command.Cancel.{cancel_attempt}

-- Durations are in nanoseconds.
pub record ReconcileConfig : Type 0 where
  pub charge_grace : ℤ
  pub refund_grace : ℤ
  pub refund_retry_after : ℤ
  pub refund_give_up_after : ℤ
  pub batch_size : ℕ

abbrev pub second : ℕ
second = 1_000_000_000

abbrev pub minute : ℕ
minute = 60 * second

abbrev pub hour : ℕ
hour = 60 * minute

abbrev or_default : ℤ → ℕ → ℤ
or_default d n = if eqb_ℤ d (pos 0) then pos n else d

unfoldable pub with_defaults : ReconcileConfig → ReconcileConfig
with_defaults c = record {
  charge_grace = or_default c.charge_grace (2 * minute);
  refund_grace = or_default c.refund_grace (5 * minute);
  refund_retry_after = or_default c.refund_retry_after (30 * minute);
  refund_give_up_after = or_default c.refund_give_up_after (6 * 24 * hour);
  batch_size = (if c.batch_size == 0 then 50 else c.batch_size);
}

unfoldable pub oldest_pending_refund : List Refund → Option Refund
oldest_pending_refund [] = none
oldest_pending_refund (r ∷ rs) =
    if refund_pending r.status then some r else oldest_pending_refund rs

-- How RunOnce settles one payment: the new payment to save, or none to leave it for the next pass.
abbrev pub Settled : Type 0
Settled = Option Payment

-- The attempt that records a status check.
unfoldable pub lookup_attempt : Payment → Option Uuid → ℤ → Result TransactionState → Attempt
lookup_attempt p refund_id duration (err e) =
    failed_attempt
      (record (blank p.id GatewayOperation.status p.gateway_transaction_id duration) {
        refund_id = refund_id;
      })
      e
lookup_attempt p refund_id duration (ok state) =
    record (blank p.id GatewayOperation.status p.gateway_transaction_id duration) {
      refund_id = refund_id;
      outcome = AttemptOutcome.succeeded;
      gateway_response = state.raw_response;
      gateway_transaction_id =
          (if is_empty state.gateway_transaction_id
            then p.gateway_transaction_id
            else state.gateway_transaction_id);
    }

abbrev refund_id_of : Option Refund → Option Uuid
refund_id_of none = none
refund_id_of (some r) = some r.id

module _ (env : Env) where
  unfoldable pub lookup : Gateway → Payment → Option Refund → Action (Result TransactionState)
  lookup gw p for_refund = do
    started ← now env
    state ←
        get_transaction env gw
          (record { payment_id = env.show p.id; gateway_transaction_id = p.gateway_transaction_id })
    ended ← now env
    record_attempt env (lookup_attempt p (refund_id_of for_refund) (ended -ℤ started) state)
    pure state

  unfoldable pub cancelled_at_gateway : Option Error → Action Bool
  cancelled_at_gateway none = pure true
  cancelled_at_gateway (some e) = do
    warn "reconciler: cancel of orphaned charge failed, retrying next pass"
    pure false

  unfoldable pub cancel_orphan : Gateway → Payment → String → Action Bool
  unfolding cancelled_at_gateway
  cancel_orphan gw p tx = do
    started ← now env
    answer ← cancel_transaction env gw tx
    ended ← now env
    gone ← cancelled_at_gateway answer
    record_attempt env (cancel_attempt p.id tx (ended -ℤ started) answer)
    pure gone

  unfoldable pub apply_outcome : Result Payment → Action Settled
  apply_outcome (ok p) = pure (some p)
  apply_outcome (err e) = do complain "reconciler: apply charge outcome"; pure none

  -- `if err == nil { err = fn }`, after MarkPending
  unfoldable pub after_pending : (Time → Payment → Result Payment) → Result Payment → Action Settled
  unfolding apply_outcome
  after_pending fn (ok q) = do at ← now env; apply_outcome (fn at q)
  after_pending fn (err e) = apply_outcome (err e)

  -- `if err = p.MarkPending(…); err == nil { err = fn }`
  unfoldable pub adopt_then :
      TransactionState → (Time → Payment → Result Payment) → Payment → Action Settled
  unfolding after_pending
  adopt_then state fn p = do
    at ← now env
    after_pending fn (mark_pending at state.gateway_transaction_id state.raw_response p)

  -- The cases of reconcileCharge for a transaction that the gateway knows.
  unfoldable pub settle_found :
      Gateway → TransactionState → TransactionStatus → Payment → Action Settled
  unfolding adopt_then
  settle_found gw state TransactionStatus.settled p = do
    paid_at ← now env
    adopt_then state (λ at q. mark_completed at paid_at q) p
  settle_found gw state TransactionStatus.failed p =
      adopt_then state
        (λ at q. mark_failed at state.gateway_status ("gateway status: " <> state.gateway_status) q)
        p
  settle_found gw state TransactionStatus.pending p = do
    gone ← cancel_orphan gw p state.gateway_transaction_id
    if gone
        then adopt_then state
            (λ at q.
              mark_failed at "CHARGE_REPLY_LOST"
                "the charge reply was lost before the caller got payment instructions; cancelled at the gateway"
                q)
            p
        else pure none
  settle_found gw state TransactionStatus.unknown p = do
    warn "reconciler: unrecognised gateway status, leaving the payment INITIATED"
    pure none

  unfoldable pub settle_missing : Payment → Action Settled
  unfolding apply_outcome
  settle_missing p = do
    at ← now env
    apply_outcome (mark_failed at "CHARGE_NOT_CREATED" "the gateway has no record of the charge" p)

  -- The switch of reconcileCharge on the gateway's view.
  unfoldable pub settle_charge : Gateway → Payment → Result TransactionState → Action Settled
  unfolding settle_found settle_missing
  settle_charge gw p (err e) = do
    warn "reconciler: charge status unavailable, retrying next pass"
    pure none
  settle_charge gw p (ok state) =
      if not state.found then settle_missing p else settle_found gw state state.status p

  unfoldable pub saved_or_warned : Result Payment → Action (Unit {0})
  saved_or_warned (ok stored) = drop_cached env stored
  saved_or_warned (err e) = warn "reconciler: save failed, retrying next pass"

  -- Reconciler.save
  unfoldable pub store : Settled → Action (Unit {0})
  unfolding saved_or_warned
  store none = done
  store (some p) = do r ← attempt (save env p); saved_or_warned r

  unfoldable pub charge_at : Result Gateway → Payment → Action (Unit {0})
  charge_at (err e) p = complain "reconciler: no gateway for payment"
  charge_at (ok gw) p = do state ← lookup gw p none; q ← settle_charge gw p state; store q

  unfoldable pub reconcile_charge : Payment → Action (Unit {0})
  unfolding charge_at
  reconcile_charge p = charge_at (env.factory p.gateway_type) p
