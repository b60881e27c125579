-- ===== src/Query/Cached.antt =====
-- get_payment.go and get_payment_by_ref.go, after a command dropped the cached views of a payment
-- (application/ports/cache.go).
use payment_module.Common.{◌≡◌, refl, ◌∙◌, ap, true, false, String, none, arith, eq_iff, is_empty}
use payment_module.Errors.{Error, ok, err}
use payment_module.Domain.Types.{Uuid, Payment}
use payment_module.Ports.Cache.{
  Cache, get, payment_cache_key, reference_cache_key, drop_cached_payment,
  drop_cached_payment-drops,
}
use payment_module.Query.Views.{
  Reads, PaymentDto, to_dto, cached, fill, or_fill, load, check_reader, get_payment, get_by_ref,
}

-- The cache that the queries read is the one that the commands drop entries from: a missing key is an
-- error of `get`.
abbrev pub MissesIn : Reads Cache → Type 0
MissesIn reads = (k : String) (c : Cache) → get k c ≡ none → (e : Error) × (reads.get k c ≡ err e)

module _ (reads : Reads Cache) (misses : MissesIn reads) where
  cached-missing : (k : String) (c : Cache) → get k c ≡ none → cached reads (reads.get k c) ≡ none
  unfolding cached
  cached-missing k c h = let (e, missing) = misses k c h in ap (cached reads) missing

  filled :
      (key : String) (p : Payment) (c : Cache)
      → (fill reads key (ok p) c).0 ≡ ok (to_dto reads.show p)
  unfolding fill
  filled key p c = refl

  load-missing :
      (id : Uuid) (q : Payment) (d : Cache)
      → get (payment_cache_key (reads.show id)) d ≡ none
      → reads.find_by_id id ≡ ok q
      → (load reads id d).0 ≡ ok (to_dto reads.show q)
  unfolding load or_fill fill
  load-missing id q d missing found =
      rw (cached-missing (payment_cache_key (reads.show id)) d missing, found) refl

  reader-owns :
      (id : Uuid) (caller : String) (dto : PaymentDto)
      → dto.caller_service ≡ caller
      → check_reader reads id caller false (ok dto) ≡ ok dto
  unfolding check_reader
  reader-owns id caller dto own = ground (arith, own, eq_iff dto.caller_service caller)

  ref-missing :
      (p r : Payment) (d : Cache)
      → get (reference_cache_key p.caller_service p.reference_id) d ≡ none
      → reads.find_by_reference p.reference_id p.caller_service ≡ ok r
      → is_empty p.reference_id ≡ false
      → is_empty p.caller_service ≡ false
      → (get_by_ref reads p.reference_id p.caller_service d).0 ≡ ok (to_dto reads.show r)
  unfolding get_by_ref or_fill fill
  ref-missing p r d missing found named called =
      rw
        (
          named,
          called,
          cached-missing (reference_cache_key p.caller_service p.reference_id) d missing,
          found,
        )
        refl

  -- Over the cache of the commands: after a command dropped the views of a payment, and both deletions
  -- arrived, its caller reads the view of the payment that the repository finds by its id, or by its
  -- reference, and none that was cached before.
  pub reads_after_drop :
      (p q r : Payment) (c : Cache)
      → reads.find_by_id p.id ≡ ok q
      → q.caller_service ≡ p.caller_service
      → reads.find_by_reference p.reference_id p.caller_service ≡ ok r
      → is_empty p.reference_id ≡ false
      → is_empty p.caller_service ≡ false
      → let d = drop_cached_payment reads.show (true, true) p c in
        ((get_payment reads p.id p.caller_service false d).0 ≡ ok (to_dto reads.show q))
        × ((get_by_ref reads p.reference_id p.caller_service d).0 ≡ ok (to_dto reads.show r))
  unfolding get_payment to_dto
  reads_after_drop p q r c found own found_ref named called =
      let d : Cache = drop_cached_payment reads.show (true, true) p c in
      let (no_id, no_ref) = drop_cached_payment-drops reads.show p c in
      (
        ap (check_reader reads p.id p.caller_service false) (load-missing p.id q d no_id found)
            ∙ reader-owns p.id p.caller_service (to_dto reads.show q) own,
        ref-missing p r d no_ref found_ref named called,
      )
