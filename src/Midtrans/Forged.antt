-- ===== src/Midtrans/Forged.antt =====
-- ProcessCallbackHandler (process_callback.go) with the webhooks of the Midtrans adapter.
use payment_module.Command.Yields.{bind-ok, bind-err}
use payment_module.Common.{
  ◌≡◌, ◌≢◌, refl, true, ℕ, some, List, [], ◌∷◌, ◌++◌, arith, ◌⊎◌, inl, inr, ap, sym, ◌∙◌, ◌<>◌,
}
use payment_module.Errors.{Error, Result, ok, err, is_code, Code}
use payment_module.Ports.Gateway.{Gateway}
use payment_module.Domain.Types.{Time}
use payment_module.Command.World.{World, Env, warning}
use payment_module.Command.Callback.{ProcessCallbackCommand, handle, callback_gateway, parsed}
use payment_module.Midtrans.Host.{Config, Host, Notification, RawRefundEntry}
use payment_module.Midtrans.Webhook.{expected_signature}
use payment_module.Midtrans.Signed.{parse_webhook-Signed, parse_webhook-refuses}
use payment_module.Midtrans.Adapter.{new_adapter, with_default_acquirer}

-- A signature over the key by which none of the payload's readings is signed.
abbrev pub IsForged : Host → Config → List ℕ → Type 0
IsForged host cfg payload =
    (m : Notification RawRefundEntry)
    → host.decode_notification payload ≡ some m
    → expected_signature host cfg m ≢ m.signature_key

rejected_webhook :
    (env : Env) (gw : Gateway) (cmd : ProcessCallbackCommand) (w : World) (e : Error)
    → env.factory cmd.gateway_type ≡ ok gw
    → gw.parse_webhook cmd.raw_payload cmd.headers ≡ err e
    → handle env cmd w ≡ (err e, record w { log = w.log ++ warning "webhook rejected" ∷ [] })
unfolding handle callback_gateway parsed
rejected_webhook env gw cmd w e chosen rejected =
    bind-ok (callback_gateway env cmd) _ w w gw (rw (chosen, callback_gateway) refl)
    ∙ bind-err (parsed env (gw.parse_webhook cmd.raw_payload cmd.headers)) _ w
        (record w { log = w.log ++ warning "webhook rejected" ∷ [] }) e (rw rejected refl)

same_key :
    (host : Host) (cfg : Config) (m : Notification RawRefundEntry)
    → expected_signature host (with_default_acquirer cfg) m ≡ expected_signature host cfg m
unfolding expected_signature with_default_acquirer
same_key host cfg m =
    ap (λ k. host.sha512_hex (m.order_id <> (m.status_code <> (m.gross_amount <> k))))
      (ground arith)

Result-cases : {A : Type 0} (r : Result A) → ((a : A) × (r ≡ ok a)) ⊎ ((e : Error) × (r ≡ err e))
Result-cases (ok a) = inl (a, refl)
Result-cases (err e) = inr (e, refl)

-- When the gateway is the Midtrans adapter and no notification that the payload decodes to carries the
-- signature of the server key, then the handler returns INVALID_INPUT and only adds a line to the log.
pub forged_webhook_changes_nothing :
    (env : Env) (host : Host) (cfg : Config) (clock : ℕ → Time) (cmd : ProcessCallbackCommand)
    (w : World)
    → env.factory cmd.gateway_type ≡ ok (new_adapter host cfg clock)
    → IsForged host cfg cmd.raw_payload
    → (e : Error) × (is_code e Code.invalid_input ≡ true)
      × (handle env cmd w ≡ (err e, record w { log = w.log ++ warning "webhook rejected" ∷ [] }))
unfolding new_adapter
forged_webhook_changes_nothing env host cfg clock cmd w chosen forged =
    let gw : Gateway = new_adapter host cfg clock in
    elim (Result-cases (gw.parse_webhook cmd.raw_payload cmd.headers)) [
      | inl (n, accepted) ↦
          let (m, decoded, signed) =
            parse_webhook-Signed host (with_default_acquirer cfg) cmd.raw_payload cmd.headers n
              accepted in
          absurd (forged m decoded (sym (same_key host cfg m) ∙ signed.signature))
      | inr (e, rejected) ↦ (
        e,
        parse_webhook-refuses host (with_default_acquirer cfg) cmd.raw_payload cmd.headers e
            rejected,
        rejected_webhook env gw cmd w e chosen rejected,
      )
    ]
