-- ===== src/Domain/Changes.antt =====
-- What one operation of internal/domain/payment does to a payment, and the event that it raises.
use payment_module.Common.{
  ◌≡◌, ◌⊎◌, inl, inr, refl, String, true, some, none, ◌==◌, [], ◌∷◌, ◌++◌, arith, if◌then◌else◌,
}
use payment_module.Common.Int.{leb_ℤ}
use payment_module.Common.Int64.{Int64}
use payment_module.Errors.{ok}
use payment_module.Json.{Payload}
use payment_module.Domain.Types.{
  Payment, Refund, Uuid, Time, DomainEvent, aggregate_id, payment_initiated, payment_pending,
  payment_completed, payment_failed, payment_cancelled, payment_expired, refund_requested,
  refund_completed, refund_declined,
}
use payment_module.Domain.Status.{Status, was_paid, RefundStatus}
use payment_module.Domain.Refunds.{
  find_refund, put_refund, confirmed_refund, request_refund, confirm, decline, refunded_amount,
  pending_refund,
}
use payment_module.Domain.Aggregate.{
  mark_pending, mark_completed, mark_failed, mark_expired, cancel,
}
use payment_module.Domain.Keys.{find_refund-put}
use payment_module.Domain.Outcomes.{IsOpen, complete_refund-cases, fail_refund-cases}
use payment_module.Domain.Lifecycle.{
  Step, to_pending, to_completed, to_failed, to_expired, to_cancelled, refund_opens,
  refund_completes, refund_fails,
}

-- What identifies a payment and what it is worth.
pub record SameIdentity (p q : Payment) : Type 0 where
  pub same_id : q.id ≡ p.id
  pub same_reference : q.reference_id ≡ p.reference_id
  pub same_caller : q.caller_service ≡ p.caller_service
  pub same_gateway : q.gateway_type ≡ p.gateway_type
  pub same_amount : q.amount ≡ p.amount
  pub same_method : q.payment_method_type ≡ p.payment_method_type
  pub same_version : q.version ≡ p.version

-- From `p` to `q` the refund with this ID, which waited, came to be as `P` says, with its amount and
-- reference kept, and every other refund stayed as it was.
pub record Settles (id : Uuid) (P : Refund → Type 0) (p q : Payment) : Type 0 where
  pub before : Refund
  pub after : Refund
  pub found_before : find_refund id p.refunds ≡ some before
  pub waited : before.status ≡ RefundStatus.pending
  pub found_after : find_refund id q.refunds ≡ some after
  pub same_amount : after.amount ≡ before.amount
  pub same_reference : after.reference_id ≡ before.reference_id
  pub became : P after
  pub others :
      (j : Uuid)
      → (if id == j then none else find_refund j q.refunds)
        ≡ (if id == j then none else find_refund j p.refunds)

abbrev Succeeded : Int64 → Time → Refund → Type 0
Succeeded amount at r =
    (r.status ≡ RefundStatus.succeeded) × (r.amount ≡ amount) × (r.completed_at ≡ some at)

abbrev Declined : String → Refund → Type 0
Declined reason r = (r.status ≡ RefundStatus.failed) × (r.failure_reason ≡ reason)

-- The event tells of the change from `p` to `q`.
abbrev pub Describes : DomainEvent → Payment → Payment → Type 0
Describes (payment_initiated id at) p q = q.status ≡ Status.initiated
Describes (payment_pending id tx at) p q =
    (q.status ≡ Status.pending) × (q.gateway_transaction_id ≡ tx) × (q.updated_at ≡ at)
Describes (payment_completed id paid_at at) p q =
    (q.status ≡ Status.completed) × (q.paid_at ≡ some paid_at) × (q.updated_at ≡ at)
Describes (payment_failed id code message at) p q = (q.status ≡ Status.failed) × (q.updated_at ≡ at)
Describes (payment_cancelled id at) p q = (q.status ≡ Status.cancelled) × (q.updated_at ≡ at)
Describes (payment_expired id at) p q = (q.status ≡ Status.expired) × (q.updated_at ≡ at)
Describes (refund_requested id refund_id amount at) p q =
    (q.updated_at ≡ at)
    × ((r : Refund) × (q.refunds ≡ p.refunds ++ r ∷ [])
        × (r.id ≡ refund_id)
        × (r.amount ≡ amount)
        × (r.status ≡ RefundStatus.pending))
Describes (refund_completed id refund_id amount total status at) p q =
    (q.updated_at ≡ at)
    × Settles refund_id (Succeeded amount at) p q
    × (q.status ≡ status)
    × (refunded_amount q ≡ total)
    × (status
        ≡ (if leb_ℤ q.amount.amount total then Status.refunded else Status.partially_refunded))
Describes (refund_declined id refund_id reason at) p q =
    (q.updated_at ≡ at) × (q.status ≡ p.status) × Settles refund_id (Declined reason) p q

-- A change that was announced by one more event, about this payment.
abbrev pub Announces : Payment → Payment → Type 0
Announces p q =
    (e : DomainEvent) × (q.events ≡ p.events ++ e ∷ []) × (aggregate_id e ≡ p.id) × Describes e p q

pub record IsChange (p q : Payment) : Type 0 where
  pub identity : SameIdentity p q
  pub stays_paid : was_paid p.status ≡ true → was_paid q.status ≡ true
  pub announced : Announces p q

module _ (p : Payment) where
  mark_pending-IsChange :
      (now : Time) (tx : String) (resp : Payload) {q : Payment}
      → mark_pending now tx resp p ≡ ok q
      → IsChange p q
  unfolding mark_pending
  mark_pending-IsChange now tx resp {q} e = record {
    identity = ground arith;
    stays_paid = ground arith;
    announced = (payment_pending p.id tx now, ground arith, refl, ground arith);
  }

  mark_completed-IsChange :
      (now paid_at : Time) {q : Payment} → mark_completed now paid_at p ≡ ok q → IsChange p q
  unfolding mark_completed
  mark_completed-IsChange now paid_at {q} e = record {
    identity = ground arith;
    stays_paid = ground arith;
    announced = (payment_completed p.id paid_at now, ground arith, refl, ground arith);
  }

  mark_failed-IsChange :
      (now : Time) (code message : String) {q : Payment}
      → mark_failed now code message p ≡ ok q
      → IsChange p q
  unfolding mark_failed
  mark_failed-IsChange now code message {q} e = record {
    identity = ground arith;
    stays_paid = ground arith;
    announced = (payment_failed p.id code message now, ground arith, refl, ground arith);
  }

  mark_expired-IsChange : (now : Time) {q : Payment} → mark_expired now p ≡ ok q → IsChange p q
  unfolding mark_expired
  mark_expired-IsChange now {q} e = record {
    identity = ground arith;
    stays_paid = ground arith;
    announced = (payment_expired p.id now, ground arith, refl, ground arith);
  }

  cancel-IsChange : (now : Time) {q : Payment} → cancel now p ≡ ok q → IsChange p q
  unfolding cancel
  cancel-IsChange now {q} e = record {
    identity = ground arith;
    stays_paid = ground arith;
    announced = (payment_cancelled p.id now, ground arith, refl, ground arith);
  }

  request_refund-IsChange :
      (print : Int64 → String) (now : Time) (new_id : Uuid) (ref : String) (amount : Int64)
      (reason by : String) {q : Payment} (r : Refund)
      → request_refund print now new_id ref amount reason by p ≡ ok (q, r)
      → IsChange p q
  unfolding request_refund pending_refund
  request_refund-IsChange print now new_id ref amount reason by {q} r e = record {
    identity = ground arith;
    stays_paid = ground arith;
    announced = (
      refund_requested p.id new_id amount now,
      ground arith,
      refl,
      (ground arith, (r, ground arith, ground arith, ground arith, ground arith)),
    );
  }

  puts :
      (r r' : Refund) (P : Refund → Type 0) (q : Payment)
      → IsOpen p r
      → q.refunds ≡ put_refund r.id r' p.refunds
      → r'.id ≡ r.id
      → r'.amount ≡ r.amount
      → r'.reference_id ≡ r.reference_id
      → P r'
      → Settles r.id P p q
  puts r r' P q (found, waited) is id amount reference h = record {
    before = r;
    after = r';
    found_before = found;
    waited = waited;
    found_after = ground (arith, is, find_refund-put r.id r.id r r' p.refunds id found);
    same_amount = amount;
    same_reference = reference;
    became = h;
    others = λ j. ground (arith, is, find_refund-put j r.id r r' p.refunds id found);
  }

  confirm-IsChange :
      (now : Time) (gateway_id : String) (r : Refund)
      → IsOpen p r
      → IsChange p (confirm now gateway_id r p)
  unfolding confirm refunded_amount
  confirm-IsChange now gateway_id r open_one = record {
    identity = ground arith;
    stays_paid = λ h. ground arith;
    announced = (
      _,
      refl,
      refl,
      (
        refl,
        puts r (confirmed_refund now gateway_id r) (Succeeded r.amount now) _ open_one refl refl
            refl refl (refl, refl, refl),
        refl,
        refl,
        refl,
      ),
    );
  }

  decline-IsChange :
      (now : Time) (reason : String) (r : Refund) → IsOpen p r → IsChange p (decline now reason r p)
  unfolding decline
  decline-IsChange now reason r open_one = record {
    identity = ground arith;
    stays_paid = λ h. h;
    announced = (
      _,
      refl,
      refl,
      (refl, refl, puts r _ (Declined reason) _ open_one refl refl refl refl (refl, refl)),
    );
  }

-- A step changes nothing, or it keeps what identifies the payment, its amount and its version, keeps a
-- paid payment paid, and appends one event about this payment that describes the change: the status and
-- the data after it, the refund that was opened, or the waiting refund that succeeded or failed, with
-- its ID, its amount or the reason, while the other refunds stay as they were.
pub Step-IsChange : {p q : Payment} → Step p q → (q ≡ p) ⊎ IsChange p q
Step-IsChange {p} (to_pending now tx resp e) = inr (mark_pending-IsChange p now tx resp e)
Step-IsChange {p} (to_completed now paid_at e) = inr (mark_completed-IsChange p now paid_at e)
Step-IsChange {p} (to_failed now code message e) = inr (mark_failed-IsChange p now code message e)
Step-IsChange {p} (to_expired now e) = inr (mark_expired-IsChange p now e)
Step-IsChange {p} (to_cancelled now e) = inr (cancel-IsChange p now e)
Step-IsChange {p} (refund_opens print now new_id ref amount reason by r fresh e) =
    inr (request_refund-IsChange p print now new_id ref amount reason by r e)
Step-IsChange {p} {q} (refund_completes show now id gateway_id e) =
    elim (complete_refund-cases show now id gateway_id p q e) [
      | inl same ↦ inl same
      | inr (r, o, is) ↦ inr (rw is (confirm-IsChange p now gateway_id r o))
    ]
Step-IsChange {p} {q} (refund_fails show now id reason e) =
    let (r, o, is) = fail_refund-cases show now id reason p q e in
    inr (rw is (decline-IsChange p now reason r o))
