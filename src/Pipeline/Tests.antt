-- ===== src/Pipeline/Tests.antt =====
-- The theorems on the pipeline at inputs where their hypotheses hold.
use resolix.Common.{
  ℕ, ◌-◌, ◌+◌, ◌≡◌, refl, true, false, none, some, List, [], ◌∷◌, arith, bytes, find, pos, not_pos,
  if◌then◌else◌,
}
use resolix.Cache.Entry.{
  CacheKey, CacheEntry, address, key_comparable, same_key, remaining_ttl, min_answer_ttl,
  soa_metadata,
}
use resolix.Cache.Store.{new_cache, capacity_of, ttl_bounds, get, get_at, count_miss, clamp}
use resolix.Cache.Lifetime.{age}
use resolix.Pipeline.Storing.{
  Msg, Server, entry_of, negative_entry, store_if_generation, normalized, under_any,
  invalidate_cache_domains,
}
use resolix.Pipeline.Lifetimes.{servfail-lifetime}
use resolix.Pipeline.Generations.{cleared, happen_all, store-happen_all}
use resolix.Pipeline.Domains.{find-invalidate_cache_domains, late_store-find}
use resolix.Pipeline.Resolve.{leading, refused, UpstreamResult, resolve}
use resolix.Pipeline.Answers.{IsServed, resolve-resolve}
use resolix.Pipeline.Flights.{
  idle, IsSingle, begins, continues, Step, lead, begin_miss_flight, begin_at, Reaches-IsSingle,
}

program : Unit {0}
unfolding new_cache capacity_of ttl_bounds get get_at count_miss find same_key remaining_ttl
    min_answer_ttl soa_metadata clamp entry_of negative_entry normalized under_any begin_miss_flight
    begin_at
program = tt

abbrev key : CacheKey
key = record {
  name = bytes "ads.example.com";
  qtype = 1;
  qclass = 1;
  group = [];
  do_bit = false;
  cd = false;
  ecs = [];
  policy = [];
  route = [];
}

abbrev message : ℕ → Msg
message rcode = record {
  rcode = rcode;
  authenticated_data = false;
  truncated = false;
  answer = record { name = bytes "ads.example.com"; ttl = 300; kind = address } ∷ [];
  ns = [];
}

abbrev server : Server
server = record {
  config = record {
    cache_optimistic = false;
    cache_prefetch = false;
    cache_prefetch_hits = 3;
    cache_prefetch_window = 0;
    cache_servfail_ttl = 500000000;
  };
  cache = new_cache (pos 100) 0 0;
  cache_generation = 7;
}

abbrev fetched : UpstreamResult
fetched = record { upstream = bytes "9.9.9.9"; msg = some (message 0) }

abbrev start : ℕ
start = 5000000000

abbrev positive : CacheEntry
positive = record {
  answers = (message 0).answer;
  authority = [];
  rcode = 0;
  authenticated_data = false;
  stored_at = start;
  ttl = 300;
  hits = 0;
  negative = false;
  negative_soa = [];
  servfail = false;
  prefetched = false;
  expired_observed = false;
}

abbrev failure : CacheEntry
failure = record positive { rcode = 2; stored_at = 4500000000; ttl = 1; servfail = true }

made_positive : entry_of server.cache 500000000 (message 0) false start ≡ some positive
unfolding program
made_positive = refl

made_failure : entry_of server.cache 500000000 (message 2) false start ≡ some failure
unfolding program
made_failure = refl

servfail-lifetime_example : not_pos (remaining_ttl failure (start + 499999999)) ≡ false
servfail-lifetime_example =
    servfail-lifetime server.cache 500000000 (message 2) false start 499999999 failure (omega arith)
      made_failure refl

store-happen_all_example :
    store_if_generation (happen_all server (cleared ∷ [])) key (some (message 0)) false 7 start
    ≡ (happen_all server (cleared ∷ []), false)
store-happen_all_example = store-happen_all server (cleared ∷ []) key (some (message 0)) false start

abbrev changed : List (List ℕ)
changed = bytes "*.Example.com." ∷ bytes " " ∷ []

find-invalidate_cache_domains_example :
    find key (invalidate_cache_domains server changed).0.cache.ll
    ≡ (if under_any (normalized changed) key.name then none else find key server.cache.ll)
find-invalidate_cache_domains_example = find-invalidate_cache_domains server changed key

covered : under_any (normalized changed) key.name ≡ true
unfolding program
covered = refl

late_store-find_example :
    ((store_if_generation
        (invalidate_cache_domains server changed).0
        key
        (some (message 0))
        false
        7
        start).1
      ≡ false)
    × (find key
          (store_if_generation
            (invalidate_cache_domains server changed).0
            key
            (some (message 0))
            false
            7
            start).0.cache.ll
        ≡ none)
late_store-find_example = late_store-find server changed key (some (message 0)) false start covered

first_misses : (get server.cache key start).1 ≡ none
unfolding program
first_misses = refl

made_after :
    entry_of (get server.cache key start).0 500000000 (message 0) false start ≡ some positive
unfolding program
made_after = refl

resolve-resolve_example :
    IsServed
      (message 0)
      (300 - age positive 15000000000)
      (resolve
        (resolve server key start leading fetched start).0
        key
        15000000000
        refused
        fetched
        0).1
resolve-resolve_example =
    resolve-resolve server key start fetched start (message 0) positive 15000000000 refused fetched
      0 refl first_misses refl refl made_after (omega arith) (omega arith) (omega arith)

led : Step idle (record { flights = (begin_miss_flight [] key).0; fetching = key ∷ [] })
unfolding program
led = lead key refl

Reaches-IsSingle_example :
    IsSingle (record { flights = (begin_miss_flight [] key).0; fetching = key ∷ [] })
Reaches-IsSingle_example = Reaches-IsSingle (continues begins led)
