-- ===== src/Cache/Invalidation.antt =====
-- What `invalidate` and `clear` of webgui/internal/dnsserver/cache.go remove and keep.
use resolix.Common.{
  ◌+◌, ◌≡◌, refl, Bool, none, List, [], ◌∷◌, arith, ==_iff, if◌then◌else◌, length, find, Unique,
}
use resolix.Cache.Entry.{CacheKey, CacheEntry, key_comparable}
use resolix.Cache.Store.{Cache, sweep, invalidate}

module _ (p : CacheKey → Bool) where
  pub find-sweep :
      (k : CacheKey) (l : List (CacheKey × CacheEntry))
      → find k (sweep p l).0 ≡ (if p k then none else find k l)
  unfolding find sweep
  find-sweep k [] = ground arith
  find-sweep k ((j, w) ∷ l) = ground (arith, ==_iff j k, find-sweep k l)

  pub length-sweep :
      (l : List (CacheKey × CacheEntry)) → length (sweep p l).0 + (sweep p l).1 ≡ length l
  unfolding sweep
  length-sweep [] = omega arith
  length-sweep ((j, w) ∷ l) = ground (arith, length-sweep l)

  pub sweep-Unique : (l : List (CacheKey × CacheEntry)) → Unique l → Unique (sweep p l).0
  unfolding sweep
  sweep-Unique [] u = u
  sweep-Unique ((j, w) ∷ l) u = ground (arith, find-sweep j l, sweep-Unique l u.1)

-- After `invalidate` no key that the predicate holds of is found, every other key is found with the
-- entry that it had, and the result is the number of entries that went, which is also what the
-- counter grew by.
pub invalidate-exact :
    (c : Cache) (p : CacheKey → Bool)
    → ((k : CacheKey) → find k (invalidate c p).0.ll ≡ (if p k then none else find k c.ll))
      × (length (invalidate c p).0.ll + (invalidate c p).1 ≡ length c.ll)
      × ((invalidate c p).0.counters.invalidated ≡ c.counters.invalidated + (invalidate c p).1)
unfolding invalidate
invalidate-exact c p = ((λ k. find-sweep p k c.ll), length-sweep p c.ll, refl)
