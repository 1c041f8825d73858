-- ===== src/Pipeline/Resolve.antt =====
-- One query through the cache, or to the upstreams
-- (webgui/internal/dnsserver/cache_pipeline.go, resolveViaCacheOrUpstream). What the upstream
-- exchange returned is an argument, and so is the caller's place in the flight for its key. The
-- OPT record and its extended errors are not part of the answer modelled here.
use resolix.Common.{
  ℕ, ◌+◌, ◌*◌, Bool, true, false, ◌&&◌, Option, none, some, List, [], leb, if◌then◌else◌, Text,
  bytes,
}
use resolix.Cache.Entry.{CacheKey, CacheEntry, Rr, second, with_ttl}
use resolix.Cache.Store.{get, get_stale}
use resolix.Pipeline.Storing.{Msg, Config, Server, rcode_server_failure, store_if_generation}

pub data CacheState : Type 0 where
  uncached fresh stale negative prefetched servfail coalesced : CacheState

pub record UpstreamResult : Type 0 where
  pub upstream : Text
  pub msg : Option Msg

-- The resolution, with the sections and flags that are written to the response.
pub record Resolution : Type 0 where
  pub upstream : Text
  pub cache_hit : Bool
  pub cache_state : CacheState
  pub cache_ttl : ℕ
  pub negative_soa : Text
  pub rcode : ℕ
  pub authenticated_data : Bool
  pub answer : List Rr
  pub ns : List Rr
  pub refreshes : Bool

-- cacheEntryState
unfoldable pub cache_entry_state : CacheEntry → CacheState × Text
cache_entry_state e =
    if e.prefetched && e.negative
    then (prefetched, bytes "System Cache (prefetched negative)")
    else if e.prefetched
    then (prefetched, bytes "System Cache (prefetched)")
    else if e.negative
    then (negative, bytes "System Cache (negative)")
    else if e.servfail
    then (servfail, bytes "System Cache (servfail)")
    else (fresh, bytes "System Cache")

unfoldable pub should_prefetch : Config → CacheEntry → ℕ → Bool
should_prefetch cfg e remaining =
    cfg.cache_prefetch
    && leb cfg.cache_prefetch_hits e.hits
    && leb (remaining * second) cfg.cache_prefetch_window

-- applyCacheEntry and the resolution of a hit.
unfoldable pub from_cache : CacheEntry → ℕ → CacheState → Text → Bool → Resolution
from_cache e ttl state label refresh = record {
  upstream = label;
  cache_hit = true;
  cache_state = state;
  cache_ttl = ttl;
  negative_soa = e.negative_soa;
  rcode = e.rcode;
  authenticated_data = e.authenticated_data;
  answer = with_ttl e.answers ttl;
  ns = with_ttl e.authority ttl;
  refreshes = refresh;
}

-- applyUpstreamResult and the resolution of an answer that did not come from the cache.
unfoldable pub from_upstream : Text → CacheState → Option Msg → Resolution
from_upstream upstream state none = record {
  upstream = upstream;
  cache_hit = false;
  cache_state = state;
  cache_ttl = 0;
  negative_soa = [];
  rcode = rcode_server_failure;
  authenticated_data = false;
  answer = [];
  ns = [];
  refreshes = false;
}
from_upstream upstream state (some m) = record {
  upstream = upstream;
  cache_hit = false;
  cache_state = state;
  cache_ttl = 0;
  negative_soa = [];
  rcode = m.rcode;
  authenticated_data = m.authenticated_data;
  answer = m.answer;
  ns = m.ns;
  refreshes = false;
}

pub data Role : Type 0 where
  refused joined leading : Role

-- The miss: the table of flights is full, another caller's result is shared, or the caller fetches
-- and publishes under the generation that it read before the fetch.
unfoldable pub resolve_miss :
    Server → CacheKey → Role → UpstreamResult → ℕ → ℕ → Server × Resolution
resolve_miss s key refused result generation done =
    (s, from_upstream (bytes "Overloaded") uncached none)
resolve_miss s key joined result generation done = (
  record s {
    cache = record s.cache {
      counters = record s.cache.counters { coalesced = s.cache.counters.coalesced + 1 };
    };
  },
  from_upstream result.upstream coalesced result.msg,
)
resolve_miss s key leading result generation done = (
  (store_if_generation s key result.msg false generation done).0,
  from_upstream result.upstream uncached result.msg,
)

-- The optimistic stage: an expired entry is served with TTL 1 while it is refreshed.
unfoldable pub resolve_stale :
    Server → CacheKey → Role → UpstreamResult → ℕ → Option CacheEntry → Server × Resolution
resolve_stale s key role result done none = resolve_miss s key role result s.cache_generation done
resolve_stale s key role result done (some e) = (
  s,
  from_cache e 1 stale
      (if e.negative then bytes "System Cache (stale negative)" else bytes "System Cache (stale)")
      true,
)

unfoldable pub resolve_at :
    Server
    → CacheKey
    → ℕ
    → Role
    → UpstreamResult
    → ℕ
    → Option (CacheEntry × ℕ)
    → Server × Resolution
resolve_at s key now role result done (some (e, remaining)) =
    let (state, label) = cache_entry_state e in
    (s, from_cache e remaining state label (should_prefetch s.config e remaining))
resolve_at s key now role result done none =
    if s.config.cache_optimistic
    then (let (c, o) = get_stale s.cache key now in
        resolve_stale (record s { cache = c }) key role result done o)
    else resolve_miss s key role result s.cache_generation done

-- resolveViaCacheOrUpstream: `now` is the time of the lookups and `done` that of the store.
unfoldable pub resolve : Server → CacheKey → ℕ → Role → UpstreamResult → ℕ → Server × Resolution
resolve s key now role result done =
    let (c, o) = get s.cache key now in
    resolve_at (record s { cache = c }) key now role result done o
