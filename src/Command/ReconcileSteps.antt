-- ===== src/Command/ReconcileSteps.antt =====
-- Reconciler.reconcileCharge (reconcile.go) against the operations of the aggregate.
use payment_module.Common.{
  not, ◌≡◌, refl, sym, ◌∙◌, arith, String, ◌<>◌, Option, some, none, true, ◌&&◌, if◌then◌else◌, not,
}
use payment_module.Errors.{Result, ok, err, Error}
use payment_module.Domain.Types.{Payment, Time}
use payment_module.Domain.Status.{Status}
use payment_module.Domain.Aggregate.{mark_pending, mark_failed, mark_completed}
use payment_module.Domain.Lifecycle.{Reach, here, next, to_pending, to_completed, to_failed}
use payment_module.Ports.Gateway.{Gateway, TransactionState, TransactionStatus, is_settled}
use payment_module.Command.World.{World, Env, pure, complain}
use payment_module.Command.Calls.{now}
use payment_module.Command.Succeeds.{Succeeds, success_rules}
use payment_module.Command.Yields.{Yields-when, Yields, Yields-any, Yields-pure, Yields-if}
use payment_module.Command.Reconcile.{
  settle_charge, settle_found, settle_missing, adopt_then, after_pending, apply_outcome,
  cancelled_at_gateway, cancel_orphan,
}

-- The status that the gateway's view of a charge gives the payment.
abbrev pub settled_status : TransactionState → Status
settled_status state =
    if state.found && is_settled state.status then Status.completed else Status.failed

-- The payment to save, if there is one: the operations of the aggregate lead to it, and it has the
-- status of the gateway's view.
pub data Decides (state : TransactionState) (p : Payment) : Option Payment → Type 0 where
  waits : Decides state p none
  settles : (q : Payment) → Reach p q → q.status ≡ settled_status state → Decides state p (some q)

completed_status :
    (at paid_at : Time) (p q : Payment)
    → mark_completed at paid_at p ≡ ok q
    → q.status ≡ Status.completed
unfolding mark_completed
completed_status at paid_at p q e = ground arith

failed_status :
    (at : Time) (code message : String) (p q : Payment)
    → mark_failed at code message p ≡ ok q
    → q.status ≡ Status.failed
unfolding mark_failed
failed_status at code message p q e = ground arith

module _ (env : Env) (state : TransactionState) (p : Payment) where
  apply_outcome-Decides :
      (r : Result Payment)
      → ((q : Payment) → r ≡ ok q → Decides state p (some q))
      → Yields (Decides state p) (apply_outcome env r)
  unfolding apply_outcome
  apply_outcome-Decides (ok q) h = Yields-pure (some q) (h q refl)
  apply_outcome-Decides (err e) h =
      Yields-any (complain "reconciler: apply charge outcome") (λ _. pure none)
        λ _. Yields-pure none waits

  after_pending-Decides :
      (fn : Time → Payment → Result Payment) (r : Result Payment)
      → ((q : Payment) → r ≡ ok q → Reach p q)
      → ((at : Time) (q s : Payment) → Reach p q → fn at q ≡ ok s → Decides state p (some s))
      → Yields (Decides state p) (after_pending env fn r)
  unfolding after_pending
  after_pending-Decides fn (ok q) reached h =
      Yields-any (now env) (λ at. apply_outcome env (fn at q))
        λ at. apply_outcome-Decides (fn at q) (λ s e. h at q s (reached q refl) e)
  after_pending-Decides fn (err e) reached h = apply_outcome-Decides (err e) (λ q f. cc f)

  adopt_then-Decides :
      (fn : Time → Payment → Result Payment)
      → ((at : Time) (q s : Payment) → Reach p q → fn at q ≡ ok s → Decides state p (some s))
      → Yields (Decides state p) (adopt_then env state fn p)
  unfolding adopt_then
  adopt_then-Decides fn h =
      Yields-any (now env)
        (λ at.
          after_pending env fn (mark_pending at state.gateway_transaction_id state.raw_response p))
        λ at.
          after_pending-Decides fn _
            (λ q e. next here (to_pending at state.gateway_transaction_id state.raw_response e)) h

  adopt_failed :
      (code message : String)
      → settled_status state ≡ Status.failed
      → Yields (Decides state p) (adopt_then env state (λ at q. mark_failed at code message q) p)
  adopt_failed code message lost =
      adopt_then-Decides (λ at q. mark_failed at code message q)
        λ at q s r e.
          settles s (next r (to_failed at code message e))
            (failed_status at code message q s e ∙ sym lost)

  adopt_completed :
      (paid_at : Time)
      → settled_status state ≡ Status.completed
      → Yields (Decides state p) (adopt_then env state (λ at q. mark_completed at paid_at q) p)
  adopt_completed paid_at won =
      adopt_then-Decides (λ at q. mark_completed at paid_at q)
        λ at q s r e.
          settles s (next r (to_completed at paid_at e))
            (completed_status at paid_at q s e ∙ sym won)

  settle_missing-Decides :
      settled_status state ≡ Status.failed → Yields (Decides state p) (settle_missing env p)
  unfolding settle_missing
  settle_missing-Decides lost =
      Yields-any (now env)
        (λ at.
          apply_outcome env
            (mark_failed at "CHARGE_NOT_CREATED" "the gateway has no record of the charge" p))
        λ at. apply_outcome-Decides _ λ q e.
          settles q
            (next here
              (to_failed at "CHARGE_NOT_CREATED" "the gateway has no record of the charge" e))
            (failed_status at "CHARGE_NOT_CREATED" "the gateway has no record of the charge" p q e
              ∙ sym lost)

  cancelled : state.status ≡ TransactionStatus.pending → settled_status state ≡ Status.failed
  cancelled is = ground (arith, is)

  settle_found-Decides :
      (gw : Gateway) (s : TransactionStatus)
      → state.status ≡ s
      → state.found ≡ true
      → Yields (Decides state p) (settle_found env gw state s p)
  unfolding settle_found
  settle_found-Decides gw TransactionStatus.settled is found =
      Yields-any (now env) (λ paid_at. adopt_then env state (λ at q. mark_completed at paid_at q) p)
        λ paid_at. adopt_completed paid_at (ground (arith, is, found))
  settle_found-Decides gw TransactionStatus.failed is found =
      adopt_failed state.gateway_status ("gateway status: " <> state.gateway_status)
        (ground (arith, is, found))
  settle_found-Decides gw TransactionStatus.pending is found =
      search (Yields-any, Yields-if, Yields-pure, waits, adopt_failed _ _ (cancelled is))
  settle_found-Decides gw TransactionStatus.unknown is found =
      search (Yields-any, Yields-pure, waits)

  settled : (gw : Gateway) → Yields (Decides state p) (settle_charge env gw p (ok state))
  unfolding settle_charge
  settled gw =
      Yields-when (not state.found) (settle_missing env p)
        (settle_found env gw state state.status p)
        (λ lost. settle_missing-Decides (ground (arith, lost)))
        (λ known. settle_found-Decides gw state.status refl (ground (arith, known)))

module _ (env : Env) where
  cancelled_at_gateway-Succeeds :
      (answer : Option Error) → Succeeds (cancelled_at_gateway env answer)
  unfolding cancelled_at_gateway
  cancelled_at_gateway-Succeeds none = search success_rules
  cancelled_at_gateway-Succeeds (some e) = search success_rules

  cancel_orphan-Succeeds :
      (gw : Gateway) (p : Payment) (tx : String) → Succeeds (cancel_orphan env gw p tx)
  unfolding cancel_orphan
  cancel_orphan-Succeeds gw p tx = search (success_rules, cancelled_at_gateway-Succeeds) depth 10

  apply_outcome-Succeeds : (r : Result Payment) → Succeeds (apply_outcome env r)
  unfolding apply_outcome
  apply_outcome-Succeeds (ok p) = search success_rules
  apply_outcome-Succeeds (err e) = search success_rules

  after_pending-Succeeds :
      (fn : Time → Payment → Result Payment) (r : Result Payment)
      → Succeeds (after_pending env fn r)
  unfolding after_pending
  after_pending-Succeeds fn (ok p) = search (success_rules, apply_outcome-Succeeds)
  after_pending-Succeeds fn (err e) = search (success_rules, apply_outcome-Succeeds)

  adopt_then-Succeeds :
      (state : TransactionState) (fn : Time → Payment → Result Payment) (p : Payment)
      → Succeeds (adopt_then env state fn p)
  unfolding adopt_then
  adopt_then-Succeeds state fn p = search (success_rules, after_pending-Succeeds)

  settle_missing-Succeeds : (p : Payment) → Succeeds (settle_missing env p)
  unfolding settle_missing
  settle_missing-Succeeds p = search (success_rules, apply_outcome-Succeeds)

  settle_found-Succeeds :
      (gw : Gateway) (state : TransactionState) (s : TransactionStatus) (p : Payment)
      → Succeeds (settle_found env gw state s p)
  unfolding settle_found
  settle_found-Succeeds gw state TransactionStatus.settled p =
      search (success_rules, adopt_then-Succeeds)
  settle_found-Succeeds gw state TransactionStatus.failed p =
      search (success_rules, adopt_then-Succeeds)
  settle_found-Succeeds gw state TransactionStatus.pending p =
      search (success_rules, cancel_orphan-Succeeds, adopt_then-Succeeds) depth 8
  settle_found-Succeeds gw state TransactionStatus.unknown p = search success_rules

  pub settles_on :
      (gw : Gateway) (state : TransactionState) (p : Payment)
      → Succeeds (settle_charge env gw p (ok state))
  unfolding settle_charge
  settles_on gw state p = search (success_rules, settle_missing-Succeeds, settle_found-Succeeds)

-- When the gateway answers a status check, the reconciler always comes to a decision: it leaves the
-- payment for the next pass, or moves it on by operations of the aggregate, to completed when the
-- gateway knows the charge as settled, and to failed otherwise.
pub settle_charge-Decides :
    (env : Env) (gw : Gateway) (p : Payment) (state : TransactionState) (w : World)
    → (result : Option Payment) × ((settle_charge env gw p (ok state) w).0 ≡ ok result)
      × Decides state p result
settle_charge-Decides env gw p state w =
    let (result, e) = (settles_on env gw state p).at w in
    (result, e, (settled env state p gw).at w result e)
