-- ===== src/Command/CallbackClosed.antt =====
-- ProcessCallbackHandler (process_callback.go), for payments that are closed.
use mathlib.Core.Path.{subst}
use payment_module.Common.{◌≡◌, refl, sym, ◌∙◌, ap, Bool, true}
use payment_module.Errors.{ok}
use payment_module.Domain.Types.{Payment}
use payment_module.Domain.Lifecycle.{Reach, here, next}
use payment_module.Domain.Invariant.{IsValid}
use payment_module.Domain.Closed.{is_final, Step-final}
use payment_module.Ports.Gateway.{WebhookNotification}
use payment_module.Command.World.{World, Env}
use payment_module.Command.Callback.{apply_notification}
use payment_module.Command.CallbackSteps.{apply_notification-Follows}

Reach-final : {p q : Payment} → Reach p q → IsValid p → is_final p.status ≡ true → q ≡ p
Reach-final here v final = refl
Reach-final {p} (next {q} r s) v final =
    let same : q ≡ p = Reach-final r v final in
    Step-final s (subst IsValid (sym same) v) (ap (λ (x : Payment). is_final x.status) same ∙ final)
    ∙ same

-- A notification that is accepted leaves a valid payment in a final status exactly as it was.
pub apply_notification-final :
    (env : Env) (n : WebhookNotification) (p : Payment) (w : World) (q : Payment) (changed : Bool)
    → IsValid p
    → is_final p.status ≡ true
    → (apply_notification env n p w).0 ≡ ok (q, changed)
    → q ≡ p
apply_notification-final env n p w q changed v final e =
    Reach-final (apply_notification-Follows env n p w q changed e).reached v final
