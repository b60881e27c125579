-- ===== src/Http/Auth.antt =====
-- CallerAuth and AdminAuth of internal/adapter/inbound/http/middleware: who a request comes from.
use payment_module.Common.{
  String, Bool, not, ◌&&◌, ◌||◌, Option, none, some, str_eq, is_empty, if◌then◌else◌,
}
use payment_module.Common.Strings.{trim_space, cut}
use payment_module.Errors.{Result, ok, err, unauthorized, forbidden}
use payment_module.Http.Keys.{KeyHashes, service_of}

-- `hash` is apikey.Hash, SHA-256 in hex, and `equal_fold` is strings.EqualFold.
module _ (hash : String → String) (equal_fold : String → String → Bool) where
  non_empty : String → Option String
  non_empty token = if is_empty token then none else some token

  bearer_of : String × String × Bool → Option String
  unfolding non_empty
  bearer_of (scheme, token, found) =
      if not found || not (equal_fold scheme "Bearer") then none else non_empty (trim_space token)

  unfoldable pub bearer_token : (authorization : String) → Option String
  unfolding bearer_of cut
  bearer_token authorization = bearer_of (cut " " authorization)

  abbrev pub or_empty : Option String → String
  or_empty none = ""
  or_empty (some s) = s

  abbrev pub keyed_service : KeyHashes → Option String → String
  keyed_service keys none = ""
  keyed_service keys (some token) = or_empty (service_of (hash token) keys)

  unfoldable pub check_claim : (service claimed : String) → Result String
  check_claim service claimed =
      if is_empty service
      then err (unauthorized "missing or invalid API key; send Authorization: Bearer <key>")
      else if not (is_empty claimed) && not (str_eq claimed service)
      then err (forbidden "X-Service-Name does not match the service this API key belongs to")
      else ok service

  -- The service that the next handler runs for, or the error of the reply. `claimed` is the
  -- X-Service-Name header.
  unfoldable pub caller_auth : KeyHashes → (authorization claimed : String) → Result String
  unfolding bearer_token check_claim
  caller_auth keys authorization claimed =
      check_claim (keyed_service keys (bearer_token authorization)) claimed

-- `sha256` is sha256.Sum256.
unfoldable pub admin_auth :
    (sha256 : String → String) → (admin_key given : String) → Result (Unit {0})
admin_auth sha256 admin_key given =
    if is_empty admin_key || not (str_eq (sha256 given) (sha256 admin_key))
    then err (unauthorized "invalid or missing admin key")
    else ok tt
