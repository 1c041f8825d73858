-- ===== src/Pipeline/Domains.antt =====
-- Targeted invalidations (webgui/internal/dnsserver/cache_pipeline.go).
use resolix.Common.{
  ℕ, ◌+◌, ◌≡◌, refl, Bool, true, false, Option, none, List, [], ◌∷◌, arith, list_comparable,
  nat_comparable, if◌then◌else◌, Text, find,
}
use resolix.Cache.Entry.{CacheKey, key_comparable}
use resolix.Cache.Invalidation.{invalidate-exact}
use resolix.Pipeline.Storing.{
  Msg, Server, store_if_generation, invalidate_by, is_empty, normalized, under_any,
  invalidate_cache_domains,
}

find-invalidate_by :
    (s : Server) (p : CacheKey → Bool) (k : CacheKey)
    → find k (invalidate_by s p).0.cache.ll ≡ (if p k then none else find k s.cache.ll)
unfolding invalidate_by
find-invalidate_by s p k = (invalidate-exact s.cache p).0 k

invalidate_nonempty :
    (s : Server) (ds : List Text) (k : CacheKey)
    → find k
        (if is_empty ds then (s, 0) else invalidate_by s (λ key. under_any ds key.name)).0.cache.ll
      ≡ (if under_any ds k.name then none else find k s.cache.ll)
unfolding under_any
invalidate_nonempty s [] k = refl
invalidate_nonempty s (d ∷ ds) k = find-invalidate_by s (λ key. under_any (d ∷ ds) key.name) k

-- After InvalidateCacheDomains no entry is found whose name is one of the normalized domains or
-- below one, and every other entry is found as before, also when no usable domain was given.
pub find-invalidate_cache_domains :
    (s : Server) (domains : List Text) (k : CacheKey)
    → find k (invalidate_cache_domains s domains).0.cache.ll
      ≡ (if under_any (normalized domains) k.name then none else find k s.cache.ll)
unfolding invalidate_cache_domains
find-invalidate_cache_domains s domains k = invalidate_nonempty s (normalized domains) k

generation_of_match :
    (s : Server) (ds : List Text) (name : Text)
    → under_any ds name ≡ true
    → (if is_empty ds
        then (s, 0)
        else invalidate_by s (λ key. under_any ds key.name)).0.cache_generation
      ≡ s.cache_generation + 1
unfolding under_any invalidate_by
generation_of_match s [] name h = cc
generation_of_match s (d ∷ ds) name h = refl

generation_of_invalidate :
    (s : Server) (domains : List Text) (name : Text)
    → under_any (normalized domains) name ≡ true
    → (invalidate_cache_domains s domains).0.cache_generation ≡ s.cache_generation + 1
unfolding invalidate_cache_domains
generation_of_invalidate s domains name h = generation_of_match s (normalized domains) name h

-- If a domain is invalidated while a response for a name at or below it is being fetched, the late
-- response is refused: no entry is found for the name after the attempt to store it.
pub late_store-find :
    (s : Server) (domains : List Text) (k : CacheKey) (m : Option Msg) (p : Bool) (now : ℕ)
    → under_any (normalized domains) k.name ≡ true
    → (store_if_generation (invalidate_cache_domains s domains).0 k m p s.cache_generation now).1
        ≡ false
      × (find k
            (store_if_generation
              (invalidate_cache_domains s domains).0
              k
              m
              p
              s.cache_generation
              now).0.cache.ll
          ≡ none)
unfolding store_if_generation
late_store-find s domains k m p now h =
    ground (
      arith,
      find-invalidate_cache_domains s domains k,
      generation_of_invalidate s domains k.name h,
    )
