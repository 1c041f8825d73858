-- ===== src/Pipeline/Answers.antt =====
-- What a client is answered from the cache (webgui/internal/dnsserver/cache_pipeline.go).
use resolix.Common.{
  ℕ, ◌-◌, ◌≤◌, ◌<◌, ◌≡◌, ◌∙◌, true, false, Option, none, some, arith, leb, nat_comparable, ==_refl,
  if◌then◌else◌,
}
use resolix.Cache.Entry.{CacheKey, CacheEntry, key_comparable, with_ttl, max_u32}
use resolix.Cache.Store.{get, set}
use resolix.Cache.Lifetime.{hit_once, age, get-set}
use resolix.Pipeline.Storing.{Msg, Server, entry_of, store_with_source, store_if_generation}
use resolix.Pipeline.Lifetimes.{entry_of-response}
use resolix.Pipeline.Resolve.{
  Resolution, Role, leading, UpstreamResult, from_cache, resolve_miss, resolve_at, resolve,
}

-- The response is served from the cache with this TTL on every record.
pub record IsServed (m : Msg) (left : ℕ) (r : Resolution) : Type 0 where
  pub hit : r.cache_hit ≡ true
  pub ttl : r.cache_ttl ≡ left
  pub answer : r.answer ≡ with_ttl m.answer left
  pub authority : r.ns ≡ with_ttl m.ns left
  pub rcode : r.rcode ≡ m.rcode
  pub secure : r.authenticated_data ≡ m.authenticated_data

store-cache :
    (s : Server) (key : CacheKey) (m : Msg) (done : ℕ) (e : CacheEntry)
    → m.truncated ≡ false
    → entry_of s.cache s.config.cache_servfail_ttl m false done ≡ some e
    → (store_if_generation s key (some m) false s.cache_generation done).0
      ≡ record s { cache = set s.cache key e }
unfolding store_if_generation store_with_source
store-cache s key m done e whole made = ground (arith, ==_refl s.cache_generation)

resolve_at-hit :
    (s : Server) (key : CacheKey) (now : ℕ) (role : Role) (result : UpstreamResult) (done : ℕ)
    (e : CacheEntry) (ttl : ℕ) (m : Msg) (o : Option (CacheEntry × ℕ))
    → o ≡ some (hit_once e, ttl)
    → (e.answers ≡ m.answer)
      × (e.authority ≡ m.ns)
      × (e.rcode ≡ m.rcode)
      × (e.authenticated_data ≡ m.authenticated_data)
    → IsServed m ttl (resolve_at s key now role result done o).1
unfolding resolve_at from_cache
resolve_at-hit s key now role result done e ttl m none h r = cc
resolve_at-hit s key now role result done e ttl m (some (e', t)) h r = ground arith

resolve_at-miss :
    (s : Server) (key : CacheKey) (now : ℕ) (up : UpstreamResult) (done : ℕ) (m : Msg)
    (e : CacheEntry) (o : Option (CacheEntry × ℕ))
    → o ≡ none
    → s.config.cache_optimistic ≡ false
    → up.msg ≡ some m
    → m.truncated ≡ false
    → entry_of s.cache s.config.cache_servfail_ttl m false done ≡ some e
    → (resolve_at s key now leading up done o).0 ≡ record s { cache = set s.cache key e }
unfolding resolve_at resolve_miss
resolve_at-miss s key now up done m e (some x) miss strict got whole made = cc
resolve_at-miss s key now up done m e none miss strict got whole made =
    ground (arith, store-cache s key m done e)

not_yet :
    (e : CacheEntry) (later : ℕ)
    → age e later < e.ttl
    → if◌then◌else◌ {A = Option (CacheEntry × ℕ)}
        (leb e.ttl (age e later))
        none
        (some (hit_once e, e.ttl - age e later))
      ≡ some (hit_once e, e.ttl - age e later)
not_yet e later h = ground arith

-- The cache is not optimistic. If the first query misses and its caller's fetch gives a complete
-- response that is cacheable, then a second query for the same key, not before the entry was stored
-- and before its age in whole seconds reaches its TTL, is answered from the cache with both
-- sections, the RCODE and the AD bit of that response, the TTL on every record being what is left;
-- neither its place in a flight nor what an upstream would say is looked at.
pub resolve-resolve :
    (s : Server) (key : CacheKey) (now : ℕ) (up : UpstreamResult) (done : ℕ) (m : Msg)
    (e : CacheEntry) (later : ℕ) (role : Role) (up' : UpstreamResult) (done' : ℕ)
    → s.config.cache_optimistic ≡ false
    → (get s.cache key now).1 ≡ none
    → up.msg ≡ some m
    → m.truncated ≡ false
    → entry_of (get s.cache key now).0 s.config.cache_servfail_ttl m false done ≡ some e
    → e.stored_at ≤ later
    → e.ttl ≤ max_u32
    → age e later < e.ttl
    → IsServed m
        (e.ttl - age e later)
        (resolve (resolve s key now leading up done).0 key later role up' done').1
unfolding resolve
resolve-resolve s key now up done m e later role up' done' strict miss got whole made old fits
      young =
    let s' = record s { cache = (get s.cache key now).0 } in
    let first =
      resolve_at-miss s' key now up done m e (get s.cache key now).1 miss strict got whole made in
    let live : (get (set s'.cache key e) key later).1 ≡ some (hit_once e, e.ttl - age e later) =
      get-set s'.cache key e later old fits ∙ not_yet e later young in
    rw first (
      resolve_at-hit _ key later role up' done' e (e.ttl - age e later) m _ live
        (entry_of-response _ _ m false done e made))
