-- ===== src/Pipeline/Storing.antt =====
-- What the server stores of an upstream response, and when
-- (webgui/internal/dnsserver/cache_pipeline.go). A message of the DNS library is the part that this
-- code reads. The lock around the generation and the cache makes each operation one step.
use resolix.Common.{
  ℕ, ◌+◌, ◌-◌, Bool, true, false, not, ◌&&◌, ◌||◌, Option, none, some, List, [], ◌∷◌, ltb, ◌==◌,
  nat_comparable, list_comparable, if◌then◌else◌, Text, has_suffix, trim_space, trim_prefix,
  trim_dot, to_lower, bytes,
}
use resolix.Cache.Entry.{CacheKey, CacheEntry, Rr, second, min_answer_ttl, soa_metadata}
use resolix.Cache.Store.{Cache, clamp, set, clear, invalidate}

pub record Msg : Type 0 where
  pub rcode : ℕ
  pub authenticated_data : Bool
  pub truncated : Bool
  pub answer : List Rr
  pub ns : List Rr

abbrev pub rcode_success : ℕ
rcode_success = 0

abbrev pub rcode_server_failure : ℕ
rcode_server_failure = 2

abbrev pub rcode_name_error : ℕ
rcode_name_error = 3

pub record Config : Type 0 where
  pub cache_optimistic : Bool
  pub cache_prefetch : Bool
  pub cache_prefetch_hits : ℕ
  pub cache_prefetch_window : ℕ
  pub cache_servfail_ttl : ℕ

pub record Server : Type 0 where
  pub config : Config
  pub cache : Cache
  pub cache_generation : ℕ

-- The entry before its lifetime is known.
abbrev pub blank_entry : Msg → Bool → ℕ → CacheEntry
blank_entry m prefetched now = record {
  answers = m.answer;
  authority = m.ns;
  rcode = m.rcode;
  authenticated_data = m.authenticated_data;
  stored_at = now;
  ttl = 0;
  hits = 0;
  negative = false;
  negative_soa = [];
  servfail = false;
  prefetched = prefetched;
  expired_observed = false;
}

abbrev pub is_empty {ℓ} : {A : Type ℓ} → List A → Bool
is_empty [] = true
is_empty (x ∷ xs) = false

-- The lifetime of a negative answer: the TTL of the SOA, at most the cache's maximum.
unfoldable pub negative_entry : Cache → CacheEntry → Option (ℕ × Text) → Option CacheEntry
negative_entry c e none = none
negative_entry c e (some (ttl, origin)) =
    let t : ℕ = if ltb c.max_ttl ttl then c.max_ttl else ttl in
    if t == 0 then none else some (record e { ttl = t; negative = true; negative_soa = origin })

-- The `switch` of storeInCacheWithSource: the entry to store, if the response is cacheable. Times
-- are counted from an origin more than a second back, so that the entry can be backdated.
unfoldable pub entry_of : Cache → ℕ → Msg → Bool → ℕ → Option CacheEntry
entry_of c servfail_ttl m prefetched now =
    let e = blank_entry m prefetched now in
    if m.rcode == rcode_success && not (is_empty m.answer)
    then some (record e { ttl = clamp c (min_answer_ttl m.answer) })
    else if m.rcode == rcode_name_error || (m.rcode == rcode_success && is_empty m.answer)
    then negative_entry c e (soa_metadata m.ns)
    else if m.rcode == rcode_server_failure && ltb 0 servfail_ttl
    then some (record e { stored_at = now + servfail_ttl - second; ttl = 1; servfail = true })
    else none

abbrev pub set_entry : Cache → CacheKey → Option CacheEntry → Cache
set_entry c key none = c
set_entry c key (some e) = set c key e

-- storeInCacheWithSource
unfoldable pub store_with_source : Server → CacheKey → Option Msg → Bool → ℕ → Server
store_with_source s key none prefetched now = s
store_with_source s key (some m) prefetched now = if m.truncated then s else record s {
  cache = set_entry s.cache key (entry_of s.cache s.config.cache_servfail_ttl m prefetched now);
}

-- storeInCacheIfGeneration
unfoldable pub store_if_generation : Server → CacheKey → Option Msg → Bool → ℕ → ℕ → Server × Bool
store_if_generation s key m prefetched generation now =
    if generation == s.cache_generation
    then (store_with_source s key m prefetched now, true)
    else (s, false)

-- ClearCache
unfoldable pub clear_cache : Server → Server × ℕ
clear_cache s =
    let (c, n) = clear s.cache in
    (record s { cache = c; cache_generation = s.cache_generation + 1 }, n)

-- The part that the three targeted invalidations share.
unfoldable pub invalidate_by : Server → (CacheKey → Bool) → Server × ℕ
invalidate_by s predicate =
    let (c, n) = invalidate s.cache predicate in
    (record s { cache = c; cache_generation = s.cache_generation + 1 }, n)

-- normalizeName
abbrev pub normalize_name : Text → Text
normalize_name name = to_lower (trim_dot name)

-- The loop that normalizes the domains of InvalidateCacheDomains and drops the empty ones.
unfoldable pub normalized : List Text → List Text
normalized [] = []
normalized (d ∷ ds) =
    let n = normalize_name (trim_prefix (trim_space d) (bytes "*.")) in
    let rest = normalized ds in if n == [] then rest else n ∷ rest

-- A name at or below one of the domains.
unfoldable pub under_any : List Text → Text → Bool
under_any [] name = false
under_any (d ∷ ds) name = name == d || has_suffix name (b'.' ∷ d) || under_any ds name

unfoldable pub invalidate_cache_domains : Server → List Text → Server × ℕ
unfolding invalidate_by
invalidate_cache_domains s domains =
    let ds = normalized domains in
    if is_empty ds then (s, 0) else invalidate_by s (λ key. under_any ds key.name)

abbrev pub member : Text → List Text → Bool
member t [] = false
member t (u ∷ us) = t == u || member t us

unfoldable pub trimmed : List Text → List Text
trimmed [] = []
trimmed (t ∷ ts) =
    let u = trim_space t in let rest = trimmed ts in if u == [] then rest else u ∷ rest

unfoldable pub invalidate_cache_routes : Server → List Text → Server × ℕ
unfolding invalidate_by
invalidate_cache_routes s specs =
    let routes = trimmed specs in
    if is_empty routes then (s, 0) else invalidate_by s (λ key. member key.route routes)

unfoldable pub invalidate_cache_groups : Server → List Text → Server × ℕ
unfolding invalidate_by
invalidate_cache_groups s groups =
    if is_empty groups then (s, 0) else invalidate_by s (λ key. member key.group groups)
