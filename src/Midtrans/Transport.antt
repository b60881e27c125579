-- ===== src/Midtrans/Transport.antt =====
-- response, do and send of midtrans/adapter.go.
use payment_module.Common.{
  ℕ, zero, suc, String, ◌<>◌, Bool, ◌||◌, Option, none, some, List, [], ◌∷◌, ◌++◌, is_empty, leb,
  if◌then◌else◌, ◌^◌,
}
use payment_module.Common.Strings.{has_prefix}
use payment_module.Errors.{Error, Result, ok, err, wrapped, unknown_outcome, error_text, ◌>>=◌}
use payment_module.Json.{Members, Payload, text_field}
use payment_module.Midtrans.Host.{Config, Host, HttpRequest, Exchange, lost, broken_off, replied}

pub record Response : Type 0 where
  pub http_status : ℕ
  pub code : String
  pub body : Payload
  pub raw : List ℕ

unfoldable pub message : Response → String
unfolding text_field
message r = text_field "status_message" r.body

unfoldable pub is_failed : Response → Bool
is_failed r = leb 400 r.http_status || has_prefix r.code "4" || has_prefix r.code "5"

-- The condition of unknownIfServerError.
unfoldable pub is_server_error : Response → Bool
is_server_error r = leb 500 r.http_status || has_prefix r.code "5"

unfoldable pub unknown_if_server_error : Response → Option Error
unfolding is_server_error
unknown_if_server_error r = if is_server_error r then some unknown_outcome else none

-- io.LimitReader
limited : ℕ → List ℕ → List ℕ
limited zero bs = []
limited (suc n) [] = []
limited (suc n) (b ∷ bs) = b ∷ limited n bs

abbrev body_limit : ℕ
body_limit = 2 ^ 20

module _ (host : Host) (cfg : Config) where
  unfoldable pub reply_code : ℕ → Payload → String
  reply_code status body =
      let code = text_field "status_code" body in if is_empty code then host.itoa status else code

  decoded : ℕ → List ℕ → Result Payload → Result Response
  decoded status raw (err e) = err (
      wrapped unknown_outcome
        (": decode midtrans HTTP " <> (host.itoa status <> (" response: " <> error_text e))))
  decoded status raw (ok body) =
      ok (record { http_status = status; code = reply_code status body; body = body; raw = raw })

  -- What send makes of the exchange.
  unfoldable pub read_reply : Exchange → Result Response
  unfolding limited decoded
  read_reply (lost s) = err (wrapped unknown_outcome (": " <> s))
  read_reply (broken_off status s) = err (
      wrapped unknown_outcome
        (": read midtrans HTTP " <> (host.itoa status <> (" response: " <> s))))
  read_reply (replied status body) =
      let raw = limited body_limit body in decoded status raw (host.decode_body raw)

  -- json.Marshal of the body, which is nil for a request without one.
  unfoldable pub encode : Option Members → Result (Option (List ℕ))
  encode none = ok none
  encode (some body) = host.marshal body >>= λ b. ok (some b)

  content_type : Option (List ℕ) → List (String × List String)
  content_type none = []
  content_type (some b) = ("Content-Type", "application/json" ∷ []) ∷ []

  -- The keys that send sets are none of those that it is given.
  unfoldable pub request_of :
      (method path : String) → Option (List ℕ) → List (String × List String) → HttpRequest
  unfolding content_type
  request_of method path content header = record {
    method = method;
    url = cfg.base_url <> path;
    content = content;
    header =
        header
        ++ (("Authorization", host.basic_auth cfg.server_key "" ∷ [])
            ∷ ("Accept", "application/json" ∷ [])
            ∷ content_type content);
  }

  exchanged : ℕ → HttpRequest → Option Error → Result Response
  exchanged t req (some e) = err e
  exchanged t req none = read_reply (host.exchange t req)

  unfoldable pub send :
      ℕ → (method path : String) → Option Members → List (String × List String) → Result Response
  unfolding exchanged
  send t method path body header = do
    content ← encode body
    exchanged t (request_of method path content header)
        (host.new_request method (cfg.base_url <> path))

  -- `do` of adapter.go
  abbrev pub call : ℕ → (method path : String) → Option Members → Result Response
  call t method path body = send t method path body []
