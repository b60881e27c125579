-- ===== src/Midtrans/StatusOutcomes.antt =====
-- GetTransaction of midtrans/adapter.go: what its answers say of the reply.
use payment_module.Common.{
  str_eq, ◌||◌, ◌==◌, Bool, ◌≡◌, refl, true, false, not, ℕ, Option, none, some, List, inl, [],
  if-either,
}
use payment_module.Errors.{Error, Result, ok, err, is_unknown}
use payment_module.Ports.Gateway.{TransactionRef, TransactionState}
use payment_module.Midtrans.Host.{Config, Host, StatusResponse, RawRefundEntry, RefundEntry}
use payment_module.Midtrans.Transport.{Response, call, is_failed}
use payment_module.Midtrans.Calls.{
  state_of, get_transaction, is_missing, status_path, read_state, with_refunds, undecoded,
  known_state,
}
use payment_module.Midtrans.Status.{read_refunds}
use payment_module.Midtrans.Replies.{CanSend, send-unknown, ErrorTells, unknown-Tells}

-- The code of the body, or the HTTP status.
abbrev is_404 : Response → Bool
is_404 r = str_eq r.code "404" || r.http_status == 404

-- A state comes from a reply, and says that the transaction exists unless the reply is a 404.
abbrev pub StatusTells : Result Response → Result TransactionState → Type 0
StatusTells reply (err e) = ErrorTells reply e
StatusTells reply (ok s) =
    (r : Response) × (reply ≡ ok r) × (s.found ≡ not (is_404 r)) × (s.raw_response ≡ r.body)

module _ (host : Host) (cfg : Config) (r : Response) (present : is_missing r ≡ false) where
  found : true ≡ not (is_404 r)
  unfolding is_missing
  found = rw present refl

  with_refunds-Tells :
      (sr : StatusResponse RawRefundEntry) (rs : Option (List RefundEntry))
      → StatusTells (ok r) (with_refunds host cfg r sr rs)
  unfolding with_refunds undecoded known_state
  with_refunds-Tells sr none = inl refl
  with_refunds-Tells sr (some rs) = (r, refl, found, refl)

  read_state-Tells :
      (sr : Result (StatusResponse RawRefundEntry)) → StatusTells (ok r) (read_state host cfg r sr)
  unfolding read_state undecoded
  read_state-Tells (err e) = inl refl
  read_state-Tells (ok sr) = with_refunds-Tells sr (read_refunds host sr.refunds)

missing : (r : Response) → is_missing r ≡ true → false ≡ not (is_404 r)
unfolding is_missing
missing r e = rw e refl

module _ (host : Host) (cfg : Config) where
  state_of-Tells :
      (reply : Result Response)
      → ((e : Error) → reply ≡ err e → is_unknown e ≡ true)
      → StatusTells reply (state_of host cfg reply)
  unfolding state_of
  state_of-Tells (err e) lost = inl (lost e refl)
  state_of-Tells (ok r) lost =
      if-either (StatusTells (ok r)) (is_missing r) _ _ (λ e. (r, refl, missing r e, refl))
        λ e.
          if-either (StatusTells (ok r)) (is_failed r) _ _ (λ f. unknown-Tells r _)
            λ f. read_state-Tells host cfg r e (host.decode_status r.raw)

  -- For a status check that can be sent: an error of GetTransaction marks the outcome as unknown unless
  -- Midtrans answered with no server error; a state comes from a reply, with its body, and says that
  -- the transaction is missing exactly when the reply is a 404, in the HTTP status or in the body's code.
  pub get_transaction-Tells :
      (t : ℕ) (ref : TransactionRef)
      → CanSend host cfg "GET" (status_path ref) none
      → StatusTells (call host cfg t "GET" (status_path ref) none) (get_transaction host cfg t ref)
  unfolding get_transaction status_path
  get_transaction-Tells t ref can =
      state_of-Tells (call host cfg t "GET" (status_path ref) none)
        λ e h. send-unknown host cfg t "GET" (status_path ref) none [] e can h
