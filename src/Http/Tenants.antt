-- ===== src/Http/Tenants.antt =====
-- Callers that are configured (apikey.go, caller_auth.go) do not share the cached views of their
-- references (application/ports/cache.go).
use payment_module.Common.Separators.{
  has_char, cut-before, before_unique, trim_right-has, trim_left-has,
}
use Prim.Native.Char.{Char}
use Prim.Native.String.{◌∷◌ as ◌:>◌}
use mathlib.Core.Path.{subst}
use payment_module.Common.{
  ◌≡◌, ◌≢◌, sym, ◌∙◌, ap, false, ◌||◌, String, ◌<>◌, Bool, Option, none, some, List, [], ◌∷◌, arith,
  str_eq, eq_iff, is_empty, All, if-either, Bool-cases, inl, inr, not, Option-cases,
}
use text.Mathlib.TextLemmas.{nil-append, cons-append, append_cancel_left}
use payment_module.Common.Strings.{trim_space, trim_left, cut, split}
use payment_module.Errors.{Result, ok, err, ◌>>=◌}
use payment_module.Ports.Cache.{reference_cache_key}
use payment_module.Http.Keys.{
  KeyHashes, service_of, add_key, add_cut, add_entry, add_entries, parse_hashes, is_sha256_hex,
  differs,
}
use payment_module.Http.Auth.{caller_auth, check_claim, keyed_service, bearer_token, or_empty}

-- A service name that a configured key belongs to.
pub record IsService (service : String) : Type 0 where
  pub named : service ≢ ""
  pub no_colon : has_char ":" service ≡ false

-- The services that a map of keys names.
abbrev pub NamesServices : KeyHashes → Type 0
NamesServices keys = All (λ (entry : String × String). IsService entry.1) keys

abbrev Parsed : Result KeyHashes → Type 0
Parsed (ok keys) = NamesServices keys
Parsed (err e) = Unit

Parsed-bind :
    (r : Result KeyHashes) (f : KeyHashes → Result KeyHashes)
    → Parsed r
    → ((keys : KeyHashes) → NamesServices keys → Parsed (f keys))
    → Parsed (r >>= f)
Parsed-bind (ok keys) f h k = k keys h
Parsed-bind (err e) f h k = tt

module _ (to_lower quote : String → String) where
  trimmed-no_colon :
      (d : Char) (s : String) → has_char d s ≡ false → has_char d (trim_space s) ≡ false
  unfolding trim_space
  trimmed-no_colon d s h = trim_right-has d (trim_left s) (trim_left-has d s h)

  add_key-Parsed :
      (entry service hash : String) (found : Bool) (out : KeyHashes)
      → has_char ":" service ≡ false
      → NamesServices out
      → Parsed (add_key to_lower quote entry service hash found out)
  unfolding add_key
  add_key-Parsed entry service hash found out clean h =
      if-either Parsed (not found || is_empty service) _ _ (λ e. tt)
        λ e.
          if-either Parsed (not (is_sha256_hex hash)) _ _ (λ f. tt)
            λ f.
              if-either Parsed (differs to_lower quote (service_of hash out) service) _ _ (λ g. tt)
                λ g. (record { named = ground (arith, e, eq_iff service ""); no_colon = clean }, h)

  add_entry-Parsed :
      (raw : String) (out : KeyHashes)
      → NamesServices out
      → Parsed (add_entry to_lower quote raw out)
  unfolding add_entry add_cut
  add_entry-Parsed raw out h =
      let entry : String = trim_space raw in
      if-either Parsed (is_empty entry) (ok out) (add_cut to_lower quote entry (cut ":" entry) out)
        (λ e. h)
        λ e.
          add_key-Parsed entry (trim_space (cut ":" entry).0)
            (to_lower (trim_space (cut ":" entry).1)) (cut ":" entry).2 out
            (trimmed-no_colon ":" (cut ":" entry).0 (cut-before ":" entry)) h

  add_entries-Parsed :
      (entries : List String) (out : KeyHashes)
      → NamesServices out
      → Parsed (add_entries to_lower quote entries out)
  unfolding add_entries
  add_entries-Parsed [] out h = h
  add_entries-Parsed (entry ∷ entries) out h =
      Parsed-bind (add_entry to_lower quote entry out) (add_entries to_lower quote entries)
        (add_entry-Parsed entry out h) λ keys k. add_entries-Parsed entries keys k

  parse_hashes-Parsed : (config : String) → Parsed (parse_hashes to_lower quote config)
  unfolding parse_hashes
  parse_hashes-Parsed config = add_entries-Parsed (split "," config) [] tt

service_of-IsService :
    (hash : String) (keys : KeyHashes) (service : String)
    → NamesServices keys
    → service_of hash keys ≡ some service
    → IsService service
unfolding service_of
service_of-IsService hash [] service h e = ground (arith, e)
service_of-IsService hash ((j, first) ∷ keys) service (k, h) e = elim (Bool-cases (str_eq j hash)) [
  | inl same ↦ subst IsService (ground (arith, same, e)) k
  | inr differ ↦ service_of-IsService hash keys service h (ground (arith, differ, e))
]

module _ (hash : String → String) (equal_fold : String → String → Bool) where
  check_claim-ok :
      (found claimed service : String)
      → check_claim hash equal_fold found claimed ≡ ok service
      → (found ≡ service) × (is_empty service ≡ false)
  unfolding check_claim
  check_claim-ok found claimed service e = ground (arith, e)

  keyed_service-IsService :
      (keys : KeyHashes) (token : Option String) (service : String)
      → NamesServices keys
      → keyed_service hash equal_fold keys token ≡ service
      → is_empty service ≡ false
      → IsService service
  keyed_service-IsService keys none service h e full = absurd (ground (arith, ap is_empty e, full))
  keyed_service-IsService keys (some token) service h e full =
      elim (Option-cases (service_of (hash token) keys)) [
        | inl missing ↦
            absurd
              (ground (arith, ap is_empty (sym (ap (or_empty hash equal_fold) missing) ∙ e), full))
        | inr (found, there) ↦
            service_of-IsService (hash token) keys service h
              (there ∙ ap some (sym (ap (or_empty hash equal_fold) there) ∙ e))
      ]

  caller_auth-IsService :
      (keys : KeyHashes) (authorization claimed service : String)
      → NamesServices keys
      → caller_auth hash equal_fold keys authorization claimed ≡ ok service
      → IsService service
  unfolding caller_auth
  caller_auth-IsService keys authorization claimed service h e =
      let token : Option String = bearer_token hash equal_fold authorization in
      let (same, full) =
        check_claim-ok (keyed_service hash equal_fold keys token) claimed service e in
      keyed_service-IsService keys token service h same full

reference_cache_key-injective :
    (a b r s : String)
    → IsService a
    → IsService b
    → reference_cache_key a r ≡ reference_cache_key b s
    → (a ≡ b) × (r ≡ s)
unfolding reference_cache_key
reference_cache_key-injective a b r s h k e =
    let split_at : (c t : String) → c <> (":" <> t) ≡ c <> (":" :> t) =
      λ c t. ap (λ u. c <> u) (cons-append ":" "" t ∙ ap (λ u. ":" :> u) (nil-append t)) in
    before_unique ":" a b r s h.no_colon k.no_colon (
      sym (split_at a r)
      ∙ append_cancel_left "reference:" (a <> (":" <> r)) (b <> (":" <> s)) e
      ∙ split_at b s)

-- With keys from a configuration that was accepted: when two requests are authenticated and the cache
-- keys for the callers and two references are the same, then the callers and the references are.
pub callers_apart :
    (to_lower quote hash : String → String) (equal_fold : String → String → Bool) (config : String)
    (keys : KeyHashes) (auth₁ claimed₁ auth₂ claimed₂ a b r s : String)
    → parse_hashes to_lower quote config ≡ ok keys
    → caller_auth hash equal_fold keys auth₁ claimed₁ ≡ ok a
    → caller_auth hash equal_fold keys auth₂ claimed₂ ≡ ok b
    → reference_cache_key a r ≡ reference_cache_key b s
    → (a ≡ b) × (r ≡ s)
callers_apart to_lower quote hash equal_fold config keys auth₁ claimed₁ auth₂ claimed₂ a b r s
      configured first second =
    let named : NamesServices keys =
      subst Parsed configured (parse_hashes-Parsed to_lower quote config) in
    reference_cache_key-injective a b r s
      (caller_auth-IsService hash equal_fold keys auth₁ claimed₁ a named first)
      (caller_auth-IsService hash equal_fold keys auth₂ claimed₂ b named second)
