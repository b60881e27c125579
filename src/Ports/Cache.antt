-- ===== src/Ports/Cache.antt =====
-- internal/application/ports/cache.go: the keys of the cached payment views, over a cache that maps
-- keys to values. Deletion is that of `CachePort.Delete`; its errors are ignored by the callers.
use payment_module.Common.{
  ◌≡◌, refl, true, arith, String, ◌<>◌, List, [], ◌∷◌, str_eq, if◌then◌else◌, Option, none, some,
  Bool,
}
use payment_module.Domain.Types.{Payment, Uuid}

abbrev pub Cache : Type 0
Cache = List (String × String)

unfoldable pub get : String → Cache → Option String
get k [] = none
get k ((j, v) ∷ c) = if str_eq j k then some v else get k c

unfoldable pub delete : String → Cache → Cache
delete k [] = []
delete k ((j, v) ∷ c) = if str_eq j k then delete k c else (j, v) ∷ delete k c

unfoldable pub payment_cache_key : String → String
payment_cache_key payment_id = "payment:" <> payment_id

unfoldable pub reference_cache_key : String → String → String
reference_cache_key caller_service reference_id =
    "reference:" <> (caller_service <> (":" <> reference_id))

-- Each deletion may fail, which leaves its entry to expire: `reaches` says which of the two deletions
-- the cache carried out.
abbrev delete_if : Bool → String → Cache → Cache
delete_if b k c = if b then delete k c else c

unfoldable pub drop_cached_payment : (Uuid → String) → Bool × Bool → Payment → Cache → Cache
drop_cached_payment show reaches p c =
    delete_if reaches.1 (reference_cache_key p.caller_service p.reference_id)
      (delete_if reaches.0 (payment_cache_key (show p.id)) c)

pub get-delete : (k : String) (c : Cache) → get k (delete k c) ≡ none
unfolding get delete
get-delete k [] = refl
get-delete k ((j, v) ∷ c) = ground (arith, get-delete k c)

-- A deletion brings no other key back.
get-delete_other : (j k : String) (c : Cache) → get k c ≡ none → get k (delete j c) ≡ none
unfolding get delete
get-delete_other j k [] h = refl
get-delete_other j k ((i, v) ∷ c) h = ground (arith, h, get-delete_other j k c)

-- When both deletions arrive, neither view of the payment is left.
pub drop_cached_payment-drops :
    (show : Uuid → String) (p : Payment) (c : Cache)
    → let d = drop_cached_payment show (true, true) p c in
      (get (payment_cache_key (show p.id)) d ≡ none)
      × (get (reference_cache_key p.caller_service p.reference_id) d ≡ none)
unfolding drop_cached_payment
drop_cached_payment-drops show p c =
    let j : String = payment_cache_key (show p.id) in
    let k : String = reference_cache_key p.caller_service p.reference_id in
    (get-delete_other k j (delete j c) (get-delete j c), get-delete k (delete j c))
