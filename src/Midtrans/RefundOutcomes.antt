-- ===== src/Midtrans/RefundOutcomes.antt =====
-- CreateRefund and GetTransaction of midtrans/adapter.go: what their answers say of the reply.
use payment_module.Common.{
  ◌≡◌, refl, true, false, not, ◌&&◌, ℕ, some, Bool, arith, ltb, str_eq, if◌then◌else◌, [],
  if-either,
}
use payment_module.Common.Strings.{has_prefix}
use payment_module.Errors.{Error, Result, ok, err, is_unknown}
use payment_module.Ports.Gateway.{RefundRequest, RefundResult}
use payment_module.Midtrans.Host.{Config, Host}
use payment_module.Midtrans.Transport.{Response, call, is_server_error}
use payment_module.Midtrans.Calls.{
  refund_path, refund_body, refund_decision, create_refund, is_open_outcome,
}
use payment_module.Midtrans.Replies.{CanSend, send-unknown}

-- A reply by which Midtrans refused a refund: neither 2xx nor 5xx nor a duplicate key.
abbrev is_refusal : Response → Bool
is_refusal r =
    ltb r.http_status 500
    && not (has_prefix r.code "5")
    && not (has_prefix r.code "2")
    && not (str_eq r.code "406")

-- What an answer says of the reply that it was made from.
abbrev pub RefundTells : Result Response → Result RefundResult → Type 0
RefundTells reply (err e) = is_unknown e ≡ true
RefundTells reply (ok res) =
    (r : Response) × (reply ≡ ok r)
    × ((if res.accepted then str_eq r.code "200" else is_refusal r) ≡ true)

module _ (host : Host) (cfg : Config) where
  refusal :
      (r : Response) → str_eq r.code "406" ≡ false → is_open_outcome r ≡ false → is_refusal r ≡ true
  unfolding is_open_outcome is_server_error
  refusal r f g = ground arith

  refund_decision-Tells :
      (req : RefundRequest) (reply : Result Response)
      → ((e : Error) → reply ≡ err e → is_unknown e ≡ true)
      → RefundTells reply (refund_decision host cfg req reply)
  unfolding refund_decision is_open_outcome is_server_error
  refund_decision-Tells req (err e) lost = lost e refl
  refund_decision-Tells req (ok r) lost =
      if-either (RefundTells (ok r)) (str_eq r.code "200") _ _ (λ e. (r, refl, e))
        λ e.
          if-either (RefundTells (ok r)) (str_eq r.code "406") _ _ (λ f. refl)
            λ f.
              if-either (RefundTells (ok r)) (is_open_outcome r) _ _ (λ g. refl)
                λ g. (r, refl, refusal r f g)

  -- For a refund request that can be sent: an error of CreateRefund marks the outcome as unknown; an
  -- accepted refund comes from a reply with code 200; a declined one comes from a reply that is neither
  -- a 2xx, nor a 5xx in the HTTP status or the code, nor a 406.
  pub create_refund-Tells :
      (t : ℕ) (req : RefundRequest)
      → CanSend host cfg "POST" (refund_path req) (some (refund_body (host.print req.amount) req))
      → RefundTells
          (call host cfg t "POST"
            (refund_path req)
            (some (refund_body (host.print req.amount) req)))
          (create_refund host cfg t req)
  unfolding create_refund
  create_refund-Tells t req can =
      refund_decision-Tells req
        (call host cfg t "POST" (refund_path req) (some (refund_body (host.print req.amount) req)))
        λ e h.
          send-unknown host cfg t "POST" (refund_path req)
            (some (refund_body (host.print req.amount) req)) [] e can h
