-- ===== src/Command/RefundSafe.antt =====
-- RefundPaymentHandler.Handle (refund_payment.go) and its calls of CreateRefund.
use payment_module.Ports.Attempt.{Attempt}
use payment_module.Common.{
  suc, ◌≡◌, refl, ◌∙◌, false, none, some, Option, String, List, [], ◌∷◌, ◌++◌, arith,
}
use payment_module.Common.Int.{pos, ltb_ℤ, leb_ℤ, ◌-ℤ◌}
use payment_module.Errors.{Result, ok, err}
use payment_module.Domain.Types.{Payment, Refund, Time, Uuid}
use payment_module.Domain.Status.{RefundStatus}
use payment_module.Domain.Refunds.{
  find_reference, refundable_amount, request_refund, pending_refund,
}
use payment_module.Ports.Gateway.{Gateway, MethodCapability, RefundResult}
use payment_module.Common.Int64.{Int64}
use payment_module.Store.Rows.{Db}
use payment_module.Store.Save.{Session}
use payment_module.Store.Save
use payment_module.Command.World.{lift, ◌>>=◌, World, Env, GatewayCall, refunded, ◌>>=◌, pure, lift}
use payment_module.Command.Calls.{
  find_by_id, drop_cached, now, create_refund, save, drop_cached, record_attempt,
}
use payment_module.Command.Frame.{
  find_by_id-sent, Leaves, Leaves-bind, Leaves-pure, sent_of, sent_rules, record_attempt-sent,
}
use payment_module.Command.Yields.{
  Yields-any, Yields-bind, Yields-pure, Yields-lift_bind, Yields, Yields-any, Yields-lift_bind,
  Yields-bind, Yields-pure,
}
use payment_module.Command.Sends.{
  Sends, Adds, Sends-after, Sends-after_yield, Sends-once, Sends-quiet,
}
use payment_module.Command.Refund.{
  store_opened, opened_refund, RefundPaymentCommand, refund_request, refund_attempt, call_refund,
  save_again, retry_on_conflict, save_outcome, check_owner, replay, refund_gateway,
  check_capability, reserve, complain_on_error, decided, settle, open_refund, check_reference,
  handle,
}

module _ (env : Env) where
  save_again-sent :
      (id : Uuid) (fn : Time → Payment → Result Payment) → Leaves sent_of (save_again env id fn)
  unfolding save_again
  save_again-sent id fn = search sent_rules depth 8

  retry_on_conflict-sent :
      (id : Uuid) (fn : Time → Payment → Result Payment) (r : Result Payment)
      → Leaves sent_of (retry_on_conflict env id fn r)
  unfolding retry_on_conflict
  retry_on_conflict-sent id fn (ok p) = search sent_rules
  retry_on_conflict-sent id fn (err e) = search (sent_rules, save_again-sent)

  save_outcome-sent :
      (p : Payment) (fn : Time → Payment → Result Payment) → Leaves sent_of (save_outcome env p fn)
  unfolding save_outcome
  save_outcome-sent p fn = search (sent_rules, retry_on_conflict-sent) depth 8

  complain_on_error-sent : (r : Result Payment) → Leaves sent_of (complain_on_error env r)
  unfolding complain_on_error
  complain_on_error-sent (ok p) = search sent_rules
  complain_on_error-sent (err e) = search sent_rules

  decided-sent :
      (p : Payment) (r : Refund) (res : Result RefundResult) → Leaves sent_of (decided env p r res)
  unfolding decided
  decided-sent p r (ok res) = search (sent_rules, save_outcome-sent, complain_on_error-sent) depth 8
  decided-sent p r (err e) = search sent_rules

  check_owner-sent :
      (cmd : RefundPaymentCommand) (p : Payment) → Leaves sent_of (check_owner env cmd p)
  unfolding check_owner
  check_owner-sent cmd p = search sent_rules

  check_reference-sent : (cmd : RefundPaymentCommand) → Leaves sent_of (check_reference env cmd)
  unfolding check_reference
  check_reference-sent cmd = search sent_rules

  replay-sent :
      (cmd : RefundPaymentCommand) (p : Payment) (r : Refund) → Leaves sent_of (replay env cmd p r)
  unfolding replay
  replay-sent cmd p r = search sent_rules

  refund_gateway-sent : (p : Payment) → Leaves sent_of (refund_gateway env p)
  unfolding refund_gateway
  refund_gateway-sent p = record { at = λ w. ground arith }

  check_capability-sent :
      (cap : MethodCapability) (amount : Int64) (p : Payment)
      → Leaves sent_of (check_capability env cap amount p)
  unfolding check_capability
  check_capability-sent cap amount p = search sent_rules

  store_opened-sent : (gw : Gateway) (t : Payment × Refund) → Leaves sent_of (store_opened env gw t)
  unfolding store_opened
  store_opened-sent gw (q, r) = search sent_rules

  reserve-sent : (cmd : RefundPaymentCommand) (p : Payment) → Leaves sent_of (reserve env cmd p)
  unfolding reserve
  reserve-sent cmd p =
      search (sent_rules, refund_gateway-sent, check_capability-sent, store_opened-sent) depth 12

  call_refund-Adds :
      (gw : Gateway) (p : Payment) (r : Refund)
      → Adds (refunded (refund_request env.show p r)) (call_refund env gw p r)
  unfolding call_refund now create_refund
  call_refund-Adds gw p r = record {
    at = λ w.
        let asked : Result RefundResult =
          gw.create_refund (suc w.tick) (refund_request env.show p r) in
        let entry : Attempt =
          refund_attempt p r (env.clock (suc (suc w.tick)) -ℤ env.clock w.tick) asked in
        (Leaves-bind sent_of (record_attempt env entry) (λ _. pure asked)
            (record_attempt-sent env entry) (λ _. Leaves-pure sent_of asked)).at
          (record w {
            sent = w.sent ++ refunded (refund_request env.show p r) ∷ [];
            tick = suc (suc (suc w.tick));
          });
  }

-- The payment `s` is `p` with one more refund, `r`, which waits for the gateway's answer and asks for
-- no more than `p` had left.
pub record Reserves (p s : Payment) (r : Refund) : Type 0 where
  pub appended : s.refunds ≡ p.refunds ++ r ∷ []
  pub waits : r.status ≡ RefundStatus.pending
  pub positive : leb_ℤ r.amount (pos 0) ≡ false
  pub available : ltb_ℤ (refundable_amount p) r.amount ≡ false

request_refund-Reserves :
    (print : Int64 → String) (now : Time) (new_id : Uuid) (ref : String) (amount : Int64)
    (reason by : String) (p q : Payment) (r : Refund)
    → request_refund print now new_id ref amount reason by p ≡ ok (q, r)
    → Reserves p q r
unfolding request_refund pending_refund
request_refund-Reserves print now new_id ref amount reason by p q r e = record {
  appended = ground arith;
  waits = ground arith;
  positive = ground arith;
  available = ground arith;
}

-- The payment `s` that a save handed back reserves the refund `r`, over the payment `p`.
pub record Stores (env : Env) (p s : Payment) (r : Refund) : Type 0 where
  pub saved : (q : Payment) × (u : World) × ((save env q u).0 ≡ ok s)
  pub reserves : Reserves p s r

-- The requests sent after a refund: those sent before it, and at most one refund, which a saved payment
-- reserves over the payment that the command names.
pub data Asked (env : Env) (cmd : RefundPaymentCommand) (before : List GatewayCall)
    : List GatewayCall → Type 0 where
  not_asked : Asked env cmd before before
  asked_once :
      (p s : Payment) (r : Refund) (v : World)
      → (find_by_id env cmd.payment_id v).0 ≡ ok p
      → Stores env p s r
      → Asked env cmd before (before ++ refunded (refund_request env.show s r) ∷ [])

save_refunds :
    (show : Uuid → String) (session : Session) (p q : Payment) (db : Db)
    → (Save.save show session p db).0 ≡ ok q
    → q.refunds ≡ p.refunds
unfolding Save.save Save.saved
save_refunds show session p q db e = ground arith

module _ (env : Env) where
  save-Reserves :
      (p q : Payment) (r : Refund) → Reserves p q r → Yields (λ s. Stores env p s r) (save env q)
  unfolding save
  save-Reserves p q r h = record {
    at = λ w s e. record {
      saved = (q, w, e);
      reserves = record {
        appended =
            save_refunds env.show (env.session w.tick) q s (env.meanwhile w.tick w.db) e
            ∙ h.appended;
        waits = h.waits;
        positive = h.positive;
        available = h.available;
      };
    };
  }

  store_opened-Reserves :
      (gw : Gateway) (p : Payment) (t : Payment × Refund)
      → Reserves p t.0 t.1
      → Yields (λ u. Stores env p u.0 u.1) (store_opened env gw t)
  unfolding store_opened
  store_opened-Reserves gw p (q, r) h =
      Yields-bind (λ s. Stores env p s r) (save env q)
        (λ s. drop_cached env s >>= λ _. pure (s, r, gw)) (save-Reserves p q r h)
        λ s k. Yields-any (drop_cached env s) (λ _. pure (s, r, gw)) λ _. Yields-pure (s, r, gw) k

  opened_refund-Reserves :
      (cmd : RefundPaymentCommand) (p : Payment) (at : Time) (id : Uuid) (gw : Gateway)
      → Yields
          (λ u. Stores env p u.0 u.1)
          (lift (opened_refund env cmd p at id) >>= store_opened env gw)
  unfolding opened_refund
  opened_refund-Reserves cmd p at id gw =
      Yields-lift_bind (opened_refund env cmd p at id) (store_opened env gw) λ t e.
        store_opened-Reserves gw p t (request_refund-Reserves env.print at id _ _ _ _ p t.0 t.1 e)

  reserve-Reserves :
      (cmd : RefundPaymentCommand) (p : Payment)
      → Yields (λ t. Stores env p t.0 t.1) (reserve env cmd p)
  unfolding reserve
  reserve-Reserves cmd p = search (Yields-any, opened_refund-Reserves)

  settle-Asked :
      (cmd : RefundPaymentCommand) (before : List GatewayCall) (p : Payment)
      → (v : World) × ((find_by_id env cmd.payment_id v).0 ≡ ok p)
      → (t : Payment × Refund × Gateway) → Stores env p t.0 t.1
      → Sends before (Asked env cmd before) (settle env t)
  unfolding settle
  settle-Asked cmd before p (v, found) (s, r, gw) h =
      Sends-once (refunded (refund_request env.show s r)) _ _ (asked_once p s r v found h)
        (call_refund-Adds env gw s r) (decided-sent env s r)

  open_refund-Asked :
      (before : List GatewayCall) (cmd : RefundPaymentCommand) (p : Payment)
      → (v : World) × ((find_by_id env cmd.payment_id v).0 ≡ ok p)
      → (found : Option Refund) → Sends before (Asked env cmd before) (open_refund env cmd p found)
  unfolding open_refund
  open_refund-Asked before cmd p l (some r) = Sends-quiet not_asked _ (replay-sent env cmd p r)
  open_refund-Asked before cmd p l none =
      Sends-after_yield not_asked (λ t. Stores env p t.0 t.1) _ _ (reserve-sent env cmd p)
        (reserve-Reserves cmd p) (settle-Asked cmd before p l)

  asks :
      (before : List GatewayCall) (cmd : RefundPaymentCommand)
      → Sends before (Asked env cmd before) (handle env cmd)
  unfolding handle
  asks before cmd =
      Sends-after_yield not_asked (λ p. (v : World) × ((find_by_id env cmd.payment_id v).0 ≡ ok p))
        _ _ (find_by_id-sent env cmd.payment_id) (record { at = λ v p e. (v, e) })
        λ p l. Sends-after not_asked _ _ (check_owner-sent env cmd p) λ _.
          Sends-after not_asked _ _ (check_reference-sent env cmd)
            λ _. open_refund-Asked before cmd p l (find_reference cmd.reference_id p.refunds)

-- A refund request sends the gateway nothing, or one refund, however it ends. A payment that a save
-- handed back then has that refund as its last one, after the refunds of the payment that FindByID gave
-- for the command; it waits for the gateway's answer, and its amount is positive and was refundable.
pub refund_once :
    (env : Env) (cmd : RefundPaymentCommand) (w : World)
    → Asked env cmd w.sent (handle env cmd w).1.sent
refund_once env cmd w = (asks env w.sent cmd).at w refl
