-- ===== src/Pipeline/Generations.antt =====
-- A response fetched before an invalidation is never published after it
-- (webgui/internal/dnsserver/cache_pipeline.go, webgui/internal/dnsserver/runtime.go).
use resolix.Common.{
  ℕ, ◌+◌, ◌≤◌, ◌≡◌, Bool, true, false, not, ◌||◌, Option, none, some, List, [], ◌∷◌, arith, ◌==◌,
  nat_comparable, Bool-cases, inl, inr, if◌then◌else◌, Text, ℤ,
}
use resolix.Cache.Entry.{CacheKey}
use resolix.Cache.Store.{Cache, reconfigure}
use resolix.Pipeline.Storing.{
  Msg, Config, Server, store_with_source, store_if_generation, clear_cache, is_empty, normalized,
  trimmed, invalidate_cache_domains, invalidate_cache_routes, invalidate_cache_groups,
}

-- The step of ApplySettings on the cache, under the lock.
unfoldable pub apply_settings : Server → Config → ℤ → ℕ → ℕ → Server
apply_settings s config size lo hi = record s {
  config = config;
  cache = reconfigure s.cache size lo hi config.cache_optimistic;
  cache_generation = s.cache_generation + 1;
}

-- What other goroutines do to the server while a fetch is under way.
pub data Event : Type 0 where
  stored : CacheKey → Option Msg → Bool → ℕ → ℕ → Event
  used : Cache → Event
  cleared : Event
  domains_changed : List Text → Event
  routes_changed : List Text → Event
  groups_changed : List Text → Event
  settings_applied : Config → ℤ → ℕ → ℕ → Event

-- `used` stands for any reads of the cache, which leave it as some other cache.
unfoldable pub happen : Server → Event → Server
happen s (stored k m p generation now) = (store_if_generation s k m p generation now).0
happen s (used c) = record s { cache = c }
happen s cleared = (clear_cache s).0
happen s (domains_changed ds) = (invalidate_cache_domains s ds).0
happen s (routes_changed rs) = (invalidate_cache_routes s rs).0
happen s (groups_changed gs) = (invalidate_cache_groups s gs).0
happen s (settings_applied config size lo hi) = apply_settings s config size lo hi

unfoldable pub happen_all : Server → List Event → Server
happen_all s [] = s
happen_all s (e ∷ es) = happen_all (happen s e) es

-- The events that invalidate: an empty request does not.
abbrev pub invalidates : Event → Bool
invalidates (stored k m p generation now) = false
invalidates (used c) = false
invalidates cleared = true
invalidates (domains_changed ds) = not (is_empty (normalized ds))
invalidates (routes_changed rs) = not (is_empty (trimmed rs))
invalidates (groups_changed gs) = not (is_empty gs)
invalidates (settings_applied config size lo hi) = true

abbrev pub any_invalidates : List Event → Bool
any_invalidates [] = false
any_invalidates (e ∷ es) = invalidates e || any_invalidates es

generation-happen :
    (s : Server) (e : Event)
    → (happen s e).cache_generation
      ≡ (if invalidates e then s.cache_generation + 1 else s.cache_generation)
unfolding happen store_if_generation store_with_source clear_cache invalidate_cache_domains
    invalidate_cache_routes invalidate_cache_groups apply_settings
generation-happen s (stored k none p generation now) = ground arith
generation-happen s (stored k (some m) p generation now) = ground arith
generation-happen s _ = ground arith

generation-happen_all :
    (s : Server) (es : List Event)
    → (s.cache_generation ≤ (happen_all s es).cache_generation)
      × ((s.cache_generation == (happen_all s es).cache_generation) ≡ not (any_invalidates es))
unfolding happen_all
generation-happen_all s [] = ground arith
generation-happen_all s (e ∷ es) =
    let (grown, same) = generation-happen_all (happen s e) es in
    ground (arith, generation-happen s e)

-- A fetch takes the generation when it starts. Whatever happens to the server until its response
-- is there, the response is published exactly if nothing that happened was an invalidation, and
-- else the server stays as it is.
pub store-happen_all :
    (s : Server) (es : List Event) (k : CacheKey) (m : Option Msg) (p : Bool) (now : ℕ)
    → store_if_generation (happen_all s es) k m p s.cache_generation now ≡ (
        if any_invalidates es
        then (happen_all s es, false)
        else (store_with_source (happen_all s es) k m p now, true))
unfolding store_if_generation
store-happen_all s es k m p now = elim (Bool-cases (any_invalidates es)) [
  | inl some_did ↦ rw ((generation-happen_all s es).1, some_did)
  | inr none_did ↦ rw ((generation-happen_all s es).1, none_did)
]
