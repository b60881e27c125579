-- ===== src/Domain/RefundsValid.antt =====
-- The well-formedness of a payment across RequestRefund, CompleteRefund and FailRefund.
use payment_module.Common.{
  ◌+◌, ◌≤◌, ◌≡◌, refl, ◌∙◌, ap, String, none, some, List, [], ◌∷◌, ◌++◌, arith, All-append,
  Option-cases, inl, inr, if◌then◌else◌, ◌⊎◌,
}
use payment_module.Common.Int.{pos, pos_part, leb_ℤ}
use payment_module.Common.Int64.{Int64}
use payment_module.Domain.Status.{Status, RefundStatus, refund_succeeded}
use payment_module.Domain.Types.{Time, Uuid, Refund, Payment}
use payment_module.Domain.Refunds.{
  find_refund, find_reference, put_refund, refunded_amount, request_refund, complete_refund,
  fail_refund, pending_refund, sum_amounts, confirm, decline, complete_found, fail_found,
  confirmed_refund,
}
use payment_module.Domain.Amounts.{
  IsPositive, reserves, confirmed, reserved, sum_amounts_exact, total-append, confirmed-le-reserved,
  find_refund-id, total-put_refund, All-put_refund, All-find_refund,
}
use payment_module.Domain.Keys.{AreDistinct-put_refund, AreDistinct-append}
use payment_module.Domain.Invariant.{IsValid, Ensures, refundable_amount_exact, IsSound}

-- A new pending refund that fits into what is left.
IsSound-append :
    (s : Status) (a : Int64) (rs : List Refund) (r : Refund)
    → IsSound s a rs
    → (s ≡ Status.completed) ⊎ (s ≡ Status.partially_refunded)
    → IsPositive r
    → r.status ≡ RefundStatus.pending
    → find_refund r.id rs ≡ none
    → find_reference r.reference_id rs ≡ none
    → reserved rs + pos_part r.amount ≤ pos_part a
    → IsSound s a (rs ++ r ∷ [])
IsSound-append s a rs r v paid positive open_now fresh_id fresh_ref fits = record {
  amount_positive = v.amount_positive;
  amount_int64 = v.amount_int64;
  refunds_positive = All-append IsPositive rs (r ∷ []) v.refunds_positive (positive, tt);
  refunds_distinct = AreDistinct-append r rs fresh_id fresh_ref v.refunds_distinct;
  within_amount = ground (arith, total-append reserves rs (r ∷ []));
  unpaid_clean = ground arith;
  completed_none = ground (arith, v.completed_none, total-append refund_succeeded rs (r ∷ []));
  partial_some = ground (arith, v.partial_some, total-append refund_succeeded rs (r ∷ []));
  refunded_all = ground arith;
}

-- A pending refund that the gateway confirmed, with the status that the new total gives.
IsSound-confirm :
    (s : Status) (a : Int64) (rs : List Refund) (id : Uuid) (r r' : Refund)
    → IsSound s a rs
    → find_refund id rs ≡ some r
    → r.status ≡ RefundStatus.pending
    → r'.id ≡ r.id
    → r'.reference_id ≡ r.reference_id
    → r'.amount ≡ r.amount
    → r'.status ≡ RefundStatus.succeeded
    → IsSound
        (if leb_ℤ a (pos (confirmed (put_refund id r' rs)))
          then Status.refunded
          else Status.partially_refunded)
        a
        (put_refund id r' rs)
IsSound-confirm s a rs id r r' v found open_now same_id same_ref same_amount done =
    let positive : IsPositive r = All-find_refund IsPositive id rs r v.refunds_positive found in
    let more : confirmed (put_refund id r' rs) ≡ confirmed rs + pos_part r.amount =
      ground (arith, total-put_refund refund_succeeded id r' rs r found) in
    let kept : reserved (put_refund id r' rs) ≡ reserved rs =
      ground (arith, total-put_refund reserves id r' rs r found) in
    let least : confirmed (put_refund id r' rs) ≤ reserved (put_refund id r' rs) =
      confirmed-le-reserved (put_refund id r' rs) in
    record {
      amount_positive = v.amount_positive;
      amount_int64 = v.amount_int64;
      refunds_positive =
          All-put_refund IsPositive id r' rs (rw same_amount positive) v.refunds_positive;
      refunds_distinct =
          AreDistinct-put_refund id r r' rs (same_id ∙ find_refund-id id rs r found) same_ref found
            v.refunds_distinct;
      within_amount = omega (arith, v);
      unpaid_clean = ground arith;
      completed_none = ground arith;
      partial_some = ground (arith, more, positive);
      refunded_all = ground (arith, more, kept, least, v.within_amount, v.amount_positive);
    }

none-put : (id : Uuid) (rs : List Refund) (r : Refund) → rs ≡ [] → find_refund id rs ≡ some r → ⊥
unfolding find_refund
none-put id [] r e h = cc
none-put id (q ∷ rs) r e h = cc

-- A pending refund that the gateway declined.
IsSound-decline :
    (s : Status) (a : Int64) (rs : List Refund) (id : Uuid) (r r' : Refund)
    → IsSound s a rs
    → find_refund id rs ≡ some r
    → r.status ≡ RefundStatus.pending
    → r'.id ≡ r.id
    → r'.reference_id ≡ r.reference_id
    → r'.amount ≡ r.amount
    → r'.status ≡ RefundStatus.failed
    → IsSound s a (put_refund id r' rs)
IsSound-decline s a rs id r r' v found open_now same_id same_ref same_amount done =
    let positive : IsPositive r = All-find_refund IsPositive id rs r v.refunds_positive found in
    let same : confirmed (put_refund id r' rs) ≡ confirmed rs =
      ground (arith, total-put_refund refund_succeeded id r' rs r found) in
    let less : reserved (put_refund id r' rs) + pos_part r.amount ≡ reserved rs =
      ground (arith, total-put_refund reserves id r' rs r found) in
    record {
      amount_positive = v.amount_positive;
      amount_int64 = v.amount_int64;
      refunds_positive =
          All-put_refund IsPositive id r' rs (rw same_amount positive) v.refunds_positive;
      refunds_distinct =
          AreDistinct-put_refund id r r' rs (same_id ∙ find_refund-id id rs r found) same_ref found
            v.refunds_distinct;
      within_amount = omega (arith, v);
      unpaid_clean = λ unpaid. absurd (none-put id rs r (v.unpaid_clean unpaid) found);
      completed_none = λ e. same ∙ v.completed_none e;
      partial_some = λ e. rw same (v.partial_some e);
      refunded_all = λ e. same ∙ v.refunded_all e;
    }

-- Opening a refund under a new ID.
pub request_refund-IsValid :
    (print : Int64 → String) (now : Time) (new_id : Uuid) (ref : String) (amount : Int64)
    (reason by : String) (p : Payment)
    → IsValid p
    → find_refund new_id p.refunds ≡ none
    → Ensures
        (λ (t : Payment × Refund). IsValid t.0)
        (request_refund print now new_id ref amount reason by p)
unfolding request_refund pending_refund
request_refund-IsValid print now new_id ref amount reason by p v fresh = ground (
  arith,
  v,
  fresh,
  refundable_amount_exact p v,
  IsSound-append p.status p.amount.amount p.refunds
      (pending_refund now new_id ref amount reason by p),
)

module _ (p : Payment) (v : IsValid p) (r : Refund) (found : find_refund r.id p.refunds ≡ some r)
    (open_now : r.status ≡ RefundStatus.pending) where
  -- After the write the loop of RefundedAmount computes the exact sum of the confirmed refunds.
  pub sum-put_refund :
      (r' : Refund)
      → r'.amount ≡ r.amount
      → sum_amounts refund_succeeded (pos 0) (put_refund r.id r' p.refunds)
        ≡ pos (confirmed (put_refund r.id r' p.refunds))
  sum-put_refund r' same =
      let positive : IsPositive r =
        All-find_refund IsPositive r.id p.refunds r v.refunds_positive found in
      let kept : reserved (put_refund r.id r' p.refunds) ≤ reserved p.refunds =
        ground (arith, total-put_refund reserves r.id r' p.refunds r found) in
      sum_amounts_exact refund_succeeded 0 (put_refund r.id r' p.refunds)
        (All-put_refund IsPositive r.id r' p.refunds (rw same positive) v.refunds_positive)
        (omega (arith, v, kept, confirmed-le-reserved (put_refund r.id r' p.refunds)))
      ∙ ap pos (omega arith)

  confirm-IsValid : (now : Time) (gateway_id : String) → IsValid (confirm now gateway_id r p)
  unfolding confirm refunded_amount
  confirm-IsValid now gateway_id =
      let r' : Refund = confirmed_refund now gateway_id r in
      rw (sum-put_refund r' refl) (
        IsSound-confirm p.status p.amount.amount p.refunds r.id r r' v found open_now refl refl refl
          refl)

  decline-IsValid : (now : Time) (reason : String) → IsValid (decline now reason r p)
  unfolding decline
  decline-IsValid now reason =
      IsSound-decline p.status p.amount.amount p.refunds r.id r _ v found open_now refl refl refl
        refl

-- What a lookup found stands under its own ID.
pub find_refund_own :
    (id : Uuid) (rs : List Refund) (r : Refund)
    → find_refund id rs ≡ some r
    → find_refund r.id rs ≡ some r
find_refund_own id rs r found =
    ap (λ (j : Uuid). find_refund j rs) (find_refund-id id rs r found) ∙ found

pub RefundStatus-cases :
    (s : RefundStatus)
    → (s ≡ RefundStatus.pending) ⊎ (s ≡ RefundStatus.succeeded) ⊎ (s ≡ RefundStatus.failed)
RefundStatus-cases RefundStatus.pending = inl refl
RefundStatus-cases RefundStatus.succeeded = inr (inl refl)
RefundStatus-cases RefundStatus.failed = inr (inr refl)

complete_found-IsValid :
    (now : Time) (shown gateway_id : String) (p : Payment) (r : Refund)
    → IsValid p
    → find_refund r.id p.refunds ≡ some r
    → Ensures IsValid (complete_found now shown gateway_id (some r) p)
unfolding complete_found
complete_found-IsValid now shown gateway_id p r v found = elim (RefundStatus-cases r.status) [
  | inl e ↦ rw e (confirm-IsValid p v r found e now gateway_id)
  | inr (inl e) ↦ rw e v
  | inr (inr e) ↦ rw e tt
]

-- Confirming a refund, known or not, pending or not.
pub complete_refund-IsValid :
    (show : Uuid → String) (now : Time) (id : Uuid) (gateway_id : String) (p : Payment)
    → IsValid p
    → Ensures IsValid (complete_refund show now id gateway_id p)
unfolding complete_refund
complete_refund-IsValid show now id gateway_id p v =
    elim (Option-cases (find_refund id p.refunds)) [
      | inl missing ↦ rw missing tt
      | inr (r, found) ↦ rw found (
          complete_found-IsValid now (show id) gateway_id p r v
            (find_refund_own id p.refunds r found))
    ]

fail_found-IsValid :
    (now : Time) (shown reason : String) (p : Payment) (r : Refund)
    → IsValid p
    → find_refund r.id p.refunds ≡ some r
    → Ensures IsValid (fail_found now shown reason (some r) p)
unfolding fail_found decline
fail_found-IsValid now shown reason p r v found = elim (RefundStatus-cases r.status) [
  | inl e ↦ rw e (decline-IsValid p v r found e now reason)
  | inr (inl e) ↦ rw e tt
  | inr (inr e) ↦ rw e tt
]

pub fail_refund-IsValid :
    (show : Uuid → String) (now : Time) (id : Uuid) (reason : String) (p : Payment)
    → IsValid p
    → Ensures IsValid (fail_refund show now id reason p)
unfolding fail_refund
fail_refund-IsValid show now id reason p v = elim (Option-cases (find_refund id p.refunds)) [
  | inl missing ↦ rw missing tt
  | inr (r, found) ↦
      rw found
        (fail_found-IsValid now (show id) reason p r v (find_refund_own id p.refunds r found))
]
