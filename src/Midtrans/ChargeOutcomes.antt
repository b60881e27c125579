-- ===== src/Midtrans/ChargeOutcomes.antt =====
-- CreateTransaction of midtrans/charge.go, and CreatePaymentHandler (create_payment.go) on its errors.
use mathlib.Core.Path.{subst, sym}
use payment_module.Common.{
  ◌≡◌, refl, true, false, not, ◌&&◌, ℕ, String, some, Bool, arith, str_eq, if-either, ◌∙◌, ap,
}
use payment_module.Errors.{Error, Result, ok, err, is_unknown, is_code, Code, gateway_error}
use payment_module.Json.{Members}
use payment_module.Domain.Types.{Time, Payment}
use payment_module.Ports.Gateway.{CreateTransactionRequest, GatewayResponse}
use payment_module.Command.World.{World, Env}
use payment_module.Command.Create.{answered, CreatePaymentResult}
use payment_module.Command.CreateErrors.{answered-StoresError, StoresError, after_error}
use payment_module.Store.Save
use payment_module.Midtrans.Host.{Config, Host}
use payment_module.Midtrans.Transport.{
  Response, send, is_failed, is_server_error, unknown_if_server_error,
}
use payment_module.Midtrans.Charge.{build_charge_request}
use payment_module.Midtrans.Adapter.{create_transaction, charge_answer, charge_built, charge_header}
use payment_module.Midtrans.Replies.{CanSend, is_5xx, send-unknown}

-- No usable reply to the charge, or a server error whose body does not have the code 400.
abbrev pub is_in_doubt : Result Response → Bool
is_in_doubt (err e) = true
is_in_doubt (ok r) = is_5xx r && not (str_eq r.code "400")

-- The action ends in an error, and what it did to the tables is one save of the payment as it was.
pub record StoresAsItWas (env : Env) (p : Payment) (w : World)
    (t : Result CreatePaymentResult × World) : Type 0 where
  pub tick : ℕ
  pub error : Error
  pub fails : t.0 ≡ err error
  pub stores : t.1.db ≡ (Save.save env.show (env.session tick) p (env.meanwhile tick w.db)).1

as_it_was :
    (env : Env) (p : Payment) (started : Time) (e : Error) (w : World)
    → is_unknown e ≡ true
    → StoresError env p e w (answered env p started (err e) w)
    → StoresAsItWas env p w (answered env p started (err e) w)
as_it_was env p started e w unknown h =
    let same : after_error h.time e p ≡ p = rw unknown refl in
    record {
      tick = h.tick;
      error = h.error;
      fails = h.fails;
      stores =
          h.stores
          ∙ ap (λ q. (Save.save env.show (env.session h.tick) q (env.meanwhile h.tick w.db)).1)
              same;
    }

module _ (host : Host) (cfg : Config) where
  -- The error of a charge in doubt.
  record InDoubt (r : Result GatewayResponse) : Type 0 where
    pub error : Error
    pub errs : r ≡ err error
    pub unknown : is_unknown error ≡ true
    pub accepted : is_code error Code.invalid_input ≡ false

  fails : (r : Response) → is_in_doubt (ok r) ≡ true → is_failed r ≡ true
  unfolding is_failed is_server_error
  fails r doubt = ground (arith, doubt)

  server-InDoubt :
      (r : Response) (s : String)
      → is_in_doubt (ok r) ≡ true
      → InDoubt (err (gateway_error s (unknown_if_server_error r)))
  unfolding unknown_if_server_error is_server_error
  server-InDoubt r s doubt =
      let server : is_5xx r ≡ true = ground (arith, doubt) in
      record { error = _; errs = refl; unknown = rw server refl; accepted = rw server refl }

  charge_answer-InDoubt :
      (req : CreateTransactionRequest) (reply : Result Response)
      → ((e : Error) → reply ≡ err e → is_unknown e ≡ true)
      → is_in_doubt reply ≡ true
      → InDoubt (charge_answer host req reply)
  unfolding charge_answer
  charge_answer-InDoubt req (err e) lost doubt = record {
    error = _;
    errs = refl;
    unknown = lost e refl;
    accepted = refl;
  }
  charge_answer-InDoubt req (ok r) lost doubt =
      if-either InDoubt (str_eq r.code "400") _ _ (λ e. ground (arith, doubt, e))
        λ e.
          if-either InDoubt (is_failed r) _ _ (λ f. server-InDoubt r _ doubt)
            λ f. ground (arith, fails r doubt, f)

  -- When a charge that was built and can be sent gets no usable reply, or a server error whose
  -- body does not have the code 400, then the
  -- creation ends in an error and what it did to the tables is one save of the payment as it was.
  pub charge_in_doubt :
      (env : Env) (clock : ℕ → Time) (t : ℕ) (req : CreateTransactionRequest) (body : Members)
      (p : Payment) (started : Time) (w : World)
      → build_charge_request host req cfg.qris_acquirer (clock t) ≡ ok body
      → CanSend host cfg "POST" "/v2/charge" (some body)
      → is_in_doubt (send host cfg t "POST" "/v2/charge" (some body) (charge_header cfg)) ≡ true
      → StoresAsItWas env p w (answered env p started (create_transaction host cfg clock t req) w)
  unfolding create_transaction charge_built
  charge_in_doubt env clock t req body p started w built can doubt =
      let reply : Result Response =
        send host cfg t "POST" "/v2/charge" (some body) (charge_header cfg) in
      let d : InDoubt (charge_answer host req reply) =
        charge_answer-InDoubt req reply
          (λ e h.
            send-unknown host cfg t "POST" "/v2/charge" (some body) (charge_header cfg) e can h)
          doubt in
      let same : create_transaction host cfg clock t req ≡ err d.error =
        subst (λ b. charge_built host cfg t req b ≡ err d.error) (sym built) d.errs in
      subst (λ r. StoresAsItWas env p w (answered env p started r w)) (sym same)
        (as_it_was env p started d.error w d.unknown
          (answered-StoresError env p started d.error w d.accepted))
