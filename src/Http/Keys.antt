-- ===== src/Http/Keys.antt =====
-- ParseHashes of internal/pkg/apikey/apikey.go, with the functions of Go's package strings that it calls.
use payment_module.Common.Strings.{trim_space, cut, split}
use payment_module.Errors.{◌>>=◌, Result, ok, err, plain}
use Prim.Native.Char.{Char, code}
use Prim.Native.String.{[] as end_of_text, ◌∷◌ as ◌:>◌}
use payment_module.Common.{
  ℕ, String, Bool, true, false, ◌&&◌, ◌||◌, Option, none, some, List, [], ◌∷◌, ◌==◌, leb, suc,
  str_eq, if◌then◌else◌, not, is_empty, ◌<>◌,
}

-- The map from a hash to its service; the latest entry of a hash comes first.
abbrev pub KeyHashes : Type 0
KeyHashes = List (String × String)

unfoldable pub service_of : String → KeyHashes → Option String
service_of hash [] = none
service_of hash ((h, service) ∷ more) = if str_eq h hash then some service else service_of hash more

abbrev pub is_hex : Char → Bool
is_hex c =
    (leb b'0' (code c) && leb (code c) b'9')
    || (leb b'a' (code c) && leb (code c) b'f')
    || (leb b'A' (code c) && leb (code c) b'F')

all_hex : String → Bool
all_hex end_of_text = true
all_hex (c :> s) = is_hex c && all_hex s

count : String → ℕ
count end_of_text = 0
count (c :> s) = suc (count s)

-- hex.DecodeString succeeds with 32 bytes
unfoldable pub is_sha256_hex : String → Bool
unfolding all_hex count
is_sha256_hex hash = all_hex hash && count hash == 64

-- `to_lower` is strings.ToLower, and `quote` prints with %q.
module _ (to_lower quote : String → String) where
  abbrev pub differs : Option String → String → Bool
  differs none service = false
  differs (some other) service = not (str_eq other service)

  unfoldable pub add_key :
      (entry service hash : String) → (found : Bool) → KeyHashes → Result KeyHashes
  unfolding is_sha256_hex service_of
  add_key entry service hash found out =
      if not found || is_empty service
      then err (plain ("entry " <> (quote entry <> ": want service:sha256hex")))
      else if not (is_sha256_hex hash)
      then err
          (plain ("entry for " <> (quote service <> ": hash must be 64 hex characters (SHA-256)")))
      else if differs (service_of hash out) service
      then err
          (plain ("the same key hash is configured for both another service and " <> quote service))
      else ok ((hash, service) ∷ out)

  unfoldable pub add_cut : (entry : String) → String × String × Bool → KeyHashes → Result KeyHashes
  unfolding add_key
  add_cut entry (service, hash, found) out =
      add_key entry (trim_space service) (to_lower (trim_space hash)) found out

  unfoldable pub add_entry : String → KeyHashes → Result KeyHashes
  unfolding add_cut cut
  add_entry raw out =
      let entry = trim_space raw in
      if is_empty entry then ok out else add_cut entry (cut ":" entry) out

  unfoldable pub add_entries : List String → KeyHashes → Result KeyHashes
  unfolding add_entry
  add_entries [] out = ok out
  add_entries (entry ∷ entries) out = do out' ← add_entry entry out; add_entries entries out'

  unfoldable pub parse_hashes : String → Result KeyHashes
  unfolding split add_entries
  parse_hashes s = add_entries (split "," s) []
