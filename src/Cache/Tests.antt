-- ===== src/Cache/Tests.antt =====
-- Runs of the cache at concrete inputs, and the theorems at inputs where their hypotheses hold.
use resolix.Common.{
  ℕ, ◌+◌, ◌*◌, ◌≤◌, ◌<◌, ◌≡◌, refl, Bool, false, none, some, List, [], ◌∷◌, arith, bytes, length,
  find, store, without, pos, if◌then◌else◌, ◌==◌, nat_comparable, list_comparable,
}
use resolix.Cache.Entry.{
  CacheKey, CacheEntry, address, key_comparable, same_key, remaining_ttl, to_u32, second,
}
use resolix.Cache.Store.{
  Cache, new_cache, capacity_of, ttl_bounds, get, get_at, get_found, serve, expire, mark_expired,
  count_miss, set, set_at, push_front, evict, evict_at, invalidate, clamp, qtype_stats,
}
use resolix.Cache.Invalidation
use resolix.Cache.Invariant.{IsValid}
use resolix.Cache.Run.{Call, lookup, insert, run, run-IsValid}
use resolix.Cache.Lifetime.{hit_once, age, get-set, get-live, clamp_bounds}
use resolix.Cache.Eviction.{victim, is_key}
use resolix.Cache.Recency.{IsOldest, last_use, set-IsOldest}
use resolix.Cache.Accounting.{IsCounted}
use resolix.Cache.Accounting.Calls.{reads, lookups, run-IsCounted}

program : Unit {0}
unfolding new_cache capacity_of ttl_bounds get get_at get_found serve count_miss set set_at
    push_front evict evict_at find same_key remaining_ttl to_u32 run lookups expire mark_expired
    qtype_stats without store
program = tt

abbrev key_of : ℕ → CacheKey
key_of n = record {
  name = n ∷ [];
  qtype = 1;
  qclass = 1;
  group = [];
  do_bit = false;
  cd = false;
  ecs = [];
  policy = [];
  route = [];
}

abbrev entry_at : ℕ → CacheEntry
entry_at now = record {
  answers = record { name = bytes "a.b"; ttl = 300; kind = address } ∷ [];
  authority = [];
  rcode = 0;
  authenticated_data = false;
  stored_at = now;
  ttl = 60;
  hits = 0;
  negative = false;
  negative_soa = [];
  servfail = false;
  prefetched = false;
  expired_observed = false;
}

abbrev small : Cache
small = new_cache (pos 2) 0 0

abbrev script : List Call
script =
    insert (key_of 1) (entry_at 0)
    ∷ lookup (key_of 1) 1500000000
    ∷ insert (key_of 2) (entry_at 0)
    ∷ insert (key_of 3) (entry_at 0)
    ∷ lookup (key_of 1) 2000000000
    ∷ lookup (key_of 3) 60000000000
    ∷ []

-- Key 1 is displaced by key 3, and key 3 has expired when it is read.
script_counters :
    ((run small script).counters.hits ≡ 1)
    × ((run small script).counters.misses ≡ 2)
    × ((run small script).counters.evictions ≡ 1)
    × (length (run small script).ll ≡ 1)
unfolding program
script_counters = (refl, refl, refl, refl)

run-IsValid_example : IsValid (run small script)
run-IsValid_example = run-IsValid (pos 2) 0 0 script

run-IsCounted_example : IsCounted (run small script) × (reads (run small script) ≡ lookups script)
run-IsCounted_example = run-IsCounted (pos 2) 0 0 script

get-set_example :
    (get (set small (key_of 1) (entry_at 5)) (key_of 1) 2000000005).1
    ≡ some (hit_once (entry_at 5), 58)
get-set_example = get-set small (key_of 1) (entry_at 5) 2000000005 (omega arith) (omega arith)

abbrev one : Cache
one = set small (key_of 1) (entry_at 5)

one_timely :
    (e : CacheEntry)
    → find (key_of 1) one.ll ≡ some e
    → (e.stored_at ≤ 2000000005) × (e.ttl ≤ 4294967295)
unfolding program
one_timely e h = ground arith

one_live : (get one (key_of 1) 2000000005).1 ≡ some (hit_once (entry_at 5), 58)
unfolding program
one_live = refl

get-live_example :
    (e : CacheEntry) × (find (key_of 1) one.ll ≡ some e)
    × (hit_once (entry_at 5) ≡ hit_once e)
    × (0 < 58)
    × (58 + age e 2000000005 ≡ e.ttl)
    × (2000000005 < e.stored_at + e.ttl * second)
get-live_example = get-live one (key_of 1) 2000000005 (hit_once (entry_at 5)) 58 one_timely one_live

-- Key 1 is read after key 2 is inserted, so key 2 is the one that a third key displaces.
abbrev reread : List Call
reread =
    insert (key_of 1) (entry_at 0)
    ∷ insert (key_of 2) (entry_at 0)
    ∷ lookup (key_of 1) 1500000000
    ∷ []

abbrev full : Cache
full = run small reread

reread_victim : victim full (key_of 3) ≡ some (key_of 2)
unfolding program
reread_victim = refl

set-IsOldest_example :
    IsOldest (last_use small 0 reread (λ i. 0)) (victim full (key_of 3)) full.ll
    × (find (key_of 2) (set full (key_of 3) (entry_at 7)).ll ≡ (
        if key_of 3 == key_of 2
        then some (entry_at 7)
        else if is_key (victim full (key_of 3)) (key_of 2)
        then none
        else find (key_of 2) full.ll))
set-IsOldest_example = set-IsOldest (pos 2) 0 0 reread (key_of 3) (key_of 2) (entry_at 7)

clamp_bounds_example :
    (1 ≤ clamp (record small { min_ttl = 1; max_ttl = 9 }) 12)
    × (clamp (record small { min_ttl = 1; max_ttl = 9 }) 12 ≤ 9)
    × (1 ≤ 12 → 12 ≤ 9 → clamp (record small { min_ttl = 1; max_ttl = 9 }) 12 ≡ 12)
clamp_bounds_example = clamp_bounds (record small { min_ttl = 1; max_ttl = 9 }) 12 (omega arith)

abbrev is_one : CacheKey → Bool
is_one k = k.name == 1 ∷ []

invalidate-exact_example :
    ((k : CacheKey)
      → find k (invalidate one is_one).0.ll ≡ (if is_one k then none else find k one.ll))
    × (length (invalidate one is_one).0.ll + (invalidate one is_one).1 ≡ length one.ll)
    × ((invalidate one is_one).0.counters.invalidated
        ≡ one.counters.invalidated + (invalidate one is_one).1)
invalidate-exact_example = Invalidation.invalidate-exact one is_one
