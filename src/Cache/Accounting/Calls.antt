-- ===== src/Cache/Accounting/Calls.antt =====
-- The counters over any sequence of calls (webgui/internal/dnsserver/cache.go).
use resolix.Common.{
  ℕ, ◌+◌, ◌≤◌, ◌≡◌, refl, Option, none, some, List, [], ◌∷◌, arith, leb, if_intro, length, last?,
  find, length_of_last-none, ℤ, not_pos,
}
use resolix.Cache.Entry.{CacheKey, CacheEntry, key_comparable, remaining_ttl}
use resolix.Cache.Store.{
  Cache, count_miss, expire, mark_expired, serve, get_found, get_at, get, get_stale_at, get_stale,
  evict_at, evict, push_front, set_at, set, new_cache, clear, reconfigure, invalidate,
}
use resolix.Cache.Invariant.{IsValid, new_cache-IsValid}
use resolix.Cache.Run.{
  Call, lookup, lookup_stale, insert, clear_all, configure, remove, step, run, step-IsValid,
}
use resolix.Cache.Accounting.{
  total, IsCounted, count_miss-IsCounted, expire-IsCounted, serve-IsCounted, with_ll-IsCounted,
  add_qtype_eviction-Grows,
}

-- Reads that ended in a hit or a miss.
abbrev pub reads : Cache → ℕ
reads c = c.counters.hits + c.counters.misses

mark_expired-reads :
    (c : Cache) (k : CacheKey) (e : CacheEntry) → reads (mark_expired c k e) ≡ reads c
unfolding mark_expired
mark_expired-reads c k e =
    if_intro (λ d. reads d ≡ reads c) e.expired_observed (λ _. refl) (λ _. refl)

expire-reads : (c : Cache) (k : CacheKey) (e : CacheEntry) → reads (expire c k e) ≡ reads c
unfolding expire
expire-reads c k e =
    let m = mark_expired-reads c k e in
    if_intro (λ d. reads d ≡ reads c) c.optimistic (λ _. m) (λ _. m)

count_miss-reads : (c : Cache) (q : ℕ) → reads (count_miss c q) ≡ reads c + 1
unfolding count_miss
count_miss-reads c q = omega arith

get_at-counts :
    (c : Cache) (k : CacheKey) (now : ℕ) (o : Option CacheEntry)
    → IsCounted c
    → IsCounted (get_at c k now o).0 × (reads (get_at c k now o).0 ≡ reads c + 1)
unfolding get_at get_found serve
get_at-counts c k now none v = (count_miss-IsCounted c k.qtype v, count_miss-reads c k.qtype)
get_at-counts c k now (some e) v =
    if_intro (λ (r : Cache × Option (CacheEntry × ℕ)). IsCounted r.0 × (reads r.0 ≡ reads c + 1))
      (not_pos (remaining_ttl e now))
      (λ _. (
        count_miss-IsCounted (expire c k e) k.qtype (expire-IsCounted c k e v),
        omega (arith, count_miss-reads (expire c k e) k.qtype, expire-reads c k e),
      ))
      (λ _. (serve-IsCounted c k e v, omega arith))

get_stale_at-counts :
    (c : Cache) (now : ℕ) (o : Option CacheEntry)
    → IsCounted c
    → IsCounted (get_stale_at c now o).0 × (reads (get_stale_at c now o).0 ≡ reads c)
unfolding get_stale_at
get_stale_at-counts c now none v = (v, refl)
get_stale_at-counts c now (some e) v = (
  record {
    hits = v.hits;
    misses = v.misses;
    evictions = v.evictions;
    kinds = v.kinds;
    fresh = v.fresh;
  },
  refl,
)

-- The counter of evictions goes up beside the list: it agrees as long as there was an element.
abbrev count_eviction : Cache → Cache
count_eviction c = record c {
  counters = record c.counters { evictions = c.counters.evictions + 1 };
}

evict_at-counts :
    (c : Cache) (o : Option (CacheKey × CacheEntry))
    → last? c.ll ≡ o
    → 1 ≤ length c.ll
    → IsCounted c
    → IsCounted (evict_at (count_eviction c) o) × (reads (evict_at (count_eviction c) o) ≡ reads c)
unfolding evict_at
evict_at-counts c none h full v = absurd (omega (arith, length_of_last-none c.ll h))
evict_at-counts c (some (k, w)) h full v =
    let (hits, misses, evictions) = add_qtype_eviction-Grows (count_eviction c) k.qtype in
    (
      record {
        hits = omega arith;
        misses = omega arith;
        evictions = omega arith;
        kinds = v.kinds;
        fresh = v.fresh;
      },
      refl,
    )

evict-counts :
    (c : Cache) → 1 ≤ length c.ll → IsCounted c → IsCounted (evict c) × (reads (evict c) ≡ reads c)
unfolding evict
evict-counts c full v = evict_at-counts c (last? c.ll) refl full v

set_at-counts :
    (c : Cache) (k : CacheKey) (e : CacheEntry) (o : Option CacheEntry)
    → IsValid c
    → IsCounted c
    → IsCounted (set_at c k e o) × (reads (set_at c k e o) ≡ reads c)
unfolding set_at push_front
set_at-counts c k e (some old) u v = (with_ll-IsCounted c _ v, refl)
set_at-counts c k e none u v =
    if_intro (λ (d : Cache). IsCounted (push_front d k e) × (reads (push_front d k e) ≡ reads c))
      (leb c.cap (length c.ll))
      (λ full.
        let room = u.room in
        let (counted, same) = evict-counts c (ground arith) v in
        (with_ll-IsCounted (evict c) _ counted, same))
      (λ _. (with_ll-IsCounted c _ v, refl))

abbrev read_count : Call → ℕ
read_count (lookup k now) = 1
read_count _ = 0

-- The number of lookups in a sequence of calls.
unfoldable pub lookups : List Call → ℕ
lookups [] = 0
lookups (x ∷ calls) = read_count x + lookups calls

step-counts :
    (c : Cache) (x : Call)
    → IsValid c
    → IsCounted c
    → IsCounted (step c x) × (reads (step c x) ≡ reads c + read_count x)
unfolding step get get_stale set clear reconfigure invalidate
step-counts c (lookup k now) u v = get_at-counts c k now (find k c.ll) v
step-counts c (lookup_stale k now) u v =
    let (a, b) = get_stale_at-counts c now (find k c.ll) v in (a, omega arith)
step-counts c (insert k e) u v =
    let (a, b) = set_at-counts c k e (find k c.ll) u v in (a, omega arith)
step-counts c clear_all u v = (
  record {
    hits = v.hits;
    misses = v.misses;
    evictions = v.evictions;
    kinds = v.kinds;
    fresh = v.fresh;
  },
  omega arith,
)
step-counts c (configure n lo hi b) u v = (
  record {
    hits = v.hits;
    misses = v.misses;
    evictions = v.evictions;
    kinds = v.kinds;
    fresh = v.fresh;
  },
  omega arith,
)
step-counts c (remove p) u v = (
  record {
    hits = v.hits;
    misses = v.misses;
    evictions = v.evictions;
    kinds = v.kinds;
    fresh = v.fresh;
  },
  omega arith,
)

run_counts :
    (c : Cache) (calls : List Call)
    → IsValid c
    → IsCounted c
    → IsCounted (run c calls) × (reads (run c calls) ≡ reads c + lookups calls)
unfolding run lookups
run_counts c [] u v = (v, omega arith)
run_counts c (x ∷ calls) u v =
    let (counted, grown) = step-counts c x u v in
    let (last, all) = run_counts (step c x) calls (step-IsValid c x u) counted in
    (last, omega arith)

new_cache-IsCounted : (capacity : ℤ) (lo hi : ℕ) → IsCounted (new_cache capacity lo hi)
unfolding new_cache total
new_cache-IsCounted capacity lo hi = record {
  hits = refl;
  misses = refl;
  evictions = refl;
  kinds = omega arith;
  fresh = omega arith;
}

-- After any calls on a new cache, the totals of hits, misses and evictions are the sums of those by
-- question type, each hit is counted as fresh, prefetched, negative or SERVFAIL, no more fresh hits
-- than hits are counted, and hits and misses together are the number of lookups made.
pub run-IsCounted :
    (capacity : ℤ) (lo hi : ℕ) (calls : List Call)
    → IsCounted (run (new_cache capacity lo hi) calls)
      × (reads (run (new_cache capacity lo hi) calls) ≡ lookups calls)
unfolding new_cache
run-IsCounted capacity lo hi calls =
    let (counted, all) =
      run_counts (new_cache capacity lo hi) calls (new_cache-IsValid capacity lo hi)
        (new_cache-IsCounted capacity lo hi) in
    (counted, omega arith)
