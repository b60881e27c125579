-- ===== src/Command/CallbackQuiet.antt =====
-- ProcessCallbackHandler (process_callback.go): whole webhooks for payments that are closed.
use mathlib.Core.List.{append_assoc, append-nil}
use payment_module.Common.{
  ◌≡◌, refl, sym, ◌∙◌, ap, true, false, Option, Option-cases, inl, inr, List, [], ◌∷◌, ◌++◌, String,
  arith,
}
use payment_module.Errors.{ok}
use payment_module.Domain.Types.{Payment, Refund, Uuid}
use payment_module.Domain.Status.{Status}
use payment_module.Domain.Refunds.{find_refund}
use payment_module.Domain.RefundsValid.{find_refund_own}
use payment_module.Domain.Outcomes.{IsOpen}
use payment_module.Domain.Invariant.{IsValid}
use payment_module.Domain.Closed.{is_final, not_open_when_final}
use payment_module.Ports.Gateway.{
  Gateway, WebhookNotification, RefundNotification, TransactionStatus,
}
use payment_module.Command.World.{World, Env, Action, LogLine, failure, ◌>>=◌}
use payment_module.Command.Yields.{bind-ok}
use payment_module.Command.Callback.{
  ProcessCallbackCommand, Verdict, foreign, settled_before, mismatch, confirms, verdict,
  apply_verdict, apply_refund_notifications, adopt_transaction, apply_status, report_late_money,
  apply_notification, callback_gateway, parsed, find_payment, store_if, handle,
}

abbrev pub logged : List LogLine → World → World
logged lines w = record w { log = w.log ++ lines }

logged-nil : (w : World) → logged [] w ≡ w
logged-nil w = ap (λ (l : List LogLine). record w { log = l }) (append-nil w.log)

logged-append : (k l : List LogLine) (w : World) → logged l (logged k w) ≡ logged (k ++ l) w
logged-append k l w = ap (λ (m : List LogLine). record w { log = m }) (append_assoc w.log k l)

-- The action ends with `a` and only adds lines to the log.
abbrev OnlyLogs : {A : Type 0} → Action A → A → World → Type 0
OnlyLogs m a w = (lines : List LogLine) × (m w ≡ (ok a, logged lines w))

verdict-IsOpen :
    (parse : String → Option Uuid) (rn : RefundNotification) (p : Payment) (r : Refund)
    → verdict parse rn p ≡ confirms r
    → IsOpen p r
unfolding verdict
verdict-IsOpen parse rn p r e = elim (Option-cases (parse rn.refund_key)) [
  | inl none_parsed ↦ cc (rw none_parsed at e)
  | inr (id, parsed_id) ↦ elim (Option-cases (find_refund id p.refunds)) [
    | inl missing ↦ cc (rw (parsed_id, missing) at e)
    | inr (q, found) ↦
        ground (arith, rw (parsed_id, found) at e, find_refund_own id p.refunds q found)
  ]
]

module _ (env : Env) (p : Payment) (v : IsValid p) (final : is_final p.status ≡ true) where
  apply_verdict-OnlyLogs :
      (rn : RefundNotification) (d : Verdict) (w : World)
      → verdict env.parse rn p ≡ d
      → OnlyLogs (apply_verdict env rn d p false) (p, false) w
  unfolding apply_verdict
  apply_verdict-OnlyLogs rn foreign w e = (_, refl)
  apply_verdict-OnlyLogs rn settled_before w e =
      ([], sym (ap (λ (u : World). (ok (p, false), u)) (logged-nil w)))
  apply_verdict-OnlyLogs rn mismatch w e = (_, refl)
  apply_verdict-OnlyLogs rn (confirms r) w e =
      absurd (not_open_when_final p r v final (verdict-IsOpen env.parse rn p r e))

  refunds-OnlyLogs :
      (rns : List RefundNotification) (w : World)
      → OnlyLogs (apply_refund_notifications env rns p false) (p, false) w
  unfolding apply_refund_notifications
  refunds-OnlyLogs [] w = ([], sym (ap (λ (u : World). (ok (p, false), u)) (logged-nil w)))
  refunds-OnlyLogs (rn ∷ rns) w =
      let (k, first) = apply_verdict-OnlyLogs rn (verdict env.parse rn p) w refl in
      let (l, rest) = refunds-OnlyLogs rns (logged k w) in
      (
        k ++ l,
        bind-ok (apply_verdict env rn (verdict env.parse rn p) p false)
              (λ t. apply_refund_notifications env rns t.0 t.1) w (logged k w) (p, false) first
            ∙ rest
            ∙ ap (λ (u : World). (ok (p, false), u)) (logged-append k l w),
      )

-- The line that asks an operator to refund the customer, when the gateway reports money for a payment
-- that was closed unpaid.
abbrev pub refund_request : TransactionStatus → Status → List LogLine
refund_request TransactionStatus.settled Status.refunded = []
refund_request TransactionStatus.settled s =
    failure "gateway reports money received for a closed payment; refund the customer" ∷ []
refund_request t s = []

module _ (env : Env) (p : Payment) (final : is_final p.status ≡ true)
    (n : WebhookNotification) where
  adopt-pure : (w : World) → adopt_transaction env n (p, false) w ≡ (ok (p, false), w)
  unfolding adopt_transaction
  adopt-pure w = ground (arith, final)

  reported :
      (s : Status) (t : TransactionStatus) (w : World)
      → is_final s ≡ true
      → n.status ≡ t
      → p.status ≡ s
      → apply_status env n (p, false) w ≡ (ok (p, false), logged (refund_request t s) w)
  unfolding apply_status report_late_money
  reported s t w f is same = ground (arith, f, is, same, append-nil w.log)

  applied :
      (v : IsValid p) (w : World)
      → (lines : List LogLine) × (apply_notification env n p w
          ≡ (ok (p, false), logged (lines ++ refund_request n.status p.status) w))
  unfolding apply_notification
  applied v w =
      let (l, first) = refunds-OnlyLogs env p v final n.refunds w in
      (
        l,
        bind-ok (apply_refund_notifications env n.refunds p false)
              (λ t. adopt_transaction env n t >>= apply_status env n) w (logged l w) (p, false)
              first
            ∙ bind-ok (adopt_transaction env n (p, false)) (apply_status env n) (logged l w)
                (logged l w) (p, false) (adopt-pure (logged l w))
            ∙ reported p.status n.status (logged l w) final refl refl
            ∙ ap (λ (u : World). (ok (p, false), u))
                (logged-append l (refund_request n.status p.status) w),
      )

-- When a webhook is parsed and the lookup finds a well-formed payment in a final status, the handler ends
-- without an error, whatever the webhook reports, and does nothing after the lookup but add lines to the
-- log, the last of which asks for a refund of the customer when the gateway reports money and the payment
-- was closed unpaid.
pub closed_webhook_only_logs :
    (env : Env) (cmd : ProcessCallbackCommand) (gw : Gateway) (n : WebhookNotification)
    (p : Payment) (w found : World)
    → env.factory cmd.gateway_type ≡ ok gw
    → gw.parse_webhook cmd.raw_payload cmd.headers ≡ ok n
    → find_payment env n w ≡ (ok p, found)
    → IsValid p
    → is_final p.status ≡ true
    → (lines : List LogLine) × (handle env cmd w
        ≡ (ok tt, record found { log = found.log ++ (lines ++ refund_request n.status p.status) }))
unfolding handle callback_gateway parsed store_if
closed_webhook_only_logs env cmd gw n p w found chosen accepted lookup v final =
    let (l, quiet) = applied env p final n v found in
    (
      l,
      bind-ok (callback_gateway env cmd) _ w w gw (rw (chosen, callback_gateway) refl)
          ∙ bind-ok (parsed env (gw.parse_webhook cmd.raw_payload cmd.headers)) _ w w n
              (rw accepted refl)
          ∙ bind-ok (find_payment env n) _ w found p lookup
          ∙ bind-ok (apply_notification env n p) (store_if env) found
              (logged (l ++ refund_request n.status p.status) found) (p, false) quiet,
    )
