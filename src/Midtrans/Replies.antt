-- ===== src/Midtrans/Replies.antt =====
-- do and send of midtrans/adapter.go: requests that can be sent, and the errors of those.
use payment_module.Common.Strings.{has_prefix}
use payment_module.Common.{
  leb, Bool, ◌||◌, refl, ◌≡◌, true, ℕ, String, ◌<>◌, Option, none, List, arith, ◌⊎◌, Bool-cases,
  false, inl, inr,
}
use payment_module.Errors.{Error, ok, err, is_unknown, Result, gateway_error}
use payment_module.Json.{Members}
use payment_module.Midtrans.Host.{Config, Host, Exchange}
use payment_module.Midtrans.Transport.{
  read_reply, send, encode, request_of, unknown_if_server_error, Response, is_server_error,
}

-- The body can be encoded and the request can be made; both are done before anything is sent.
pub record CanSend (host : Host) (cfg : Config) (method path : String) (body : Option Members)
    : Type 0 where
  pub content : Option (List ℕ)
  pub encodes : encode host cfg body ≡ ok content
  pub makes : host.new_request method (cfg.base_url <> path) ≡ none

module _ (host : Host) (cfg : Config) where
  read_reply-unknown :
      (x : Exchange) (e : Error) → read_reply host cfg x ≡ err e → is_unknown e ≡ true
  unfolding read_reply
  read_reply-unknown x e h = ground arith

  pub send-unknown :
      (t : ℕ) (method path : String) (body : Option Members) (header : List (String × List String))
      (e : Error)
      → CanSend host cfg method path body
      → send host cfg t method path body header ≡ err e
      → is_unknown e ≡ true
  unfolding send
  send-unknown t method path body header e can h =
      read_reply-unknown (host.exchange t (request_of host cfg method path can.content header)) e
        (ground (arith, can.encodes, can.makes, h))

-- A server error, in the HTTP status or in the code of the body.
abbrev pub is_5xx : Response → Bool
is_5xx r = leb 500 r.http_status || has_prefix r.code "5"

-- What an error tells: the outcome is marked as unknown, or Midtrans answered and the reply is no
-- server error.
abbrev pub ErrorTells : Result Response → Error → Type 0
ErrorTells reply e = (is_unknown e ≡ true) ⊎ ((r : Response) × (reply ≡ ok r) × (is_5xx r ≡ false))

pub unknown-Tells :
    (r : Response) (s : String) → ErrorTells (ok r) (gateway_error s (unknown_if_server_error r))
unfolding unknown_if_server_error is_server_error
unknown-Tells r s = elim (Bool-cases (is_5xx r)) [
  | inl server ↦ inl (ground arith)
  | inr client ↦ inr (r, refl, client)
]
