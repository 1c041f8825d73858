-- ===== src/Cache/Accounting.antt =====
-- The counters of the cache (webgui/internal/dnsserver/cache.go): totals and those by type.
pub mod Calls
use resolix.Common.{
  ℕ, suc, ◌+◌, ◌≤◌, ◌<◌, ◌≡◌, refl, Bool, true, false, not, ◌&&◌, Option, none, some, List, [], ◌∷◌,
  arith, leb, Bool-cases, ◌⊎◌, inl, inr, ◌==◌, ==_iff, nat_comparable, same_nat_iff, if◌then◌else◌,
  if_intro, length, last?, find, store, without, ◌%◌, length_of_last-none, ℤ, not_pos,
}
use resolix.Cache.Entry.{CacheKey, CacheEntry, key_comparable, remaining_ttl}
use resolix.Cache.Store.{
  Cache, Counters, QTypeStats, qtype_stats, put_qtype, add_qtype_hit, add_qtype_miss,
  add_qtype_eviction, add_qtype_expiration, count_miss, count_hit, mark_expired, expire, serve,
  get_found, get_at, get, get_stale_at, get_stale, evict_at, evict, push_front, set_at, set,
  new_cache, clear, reconfigure, invalidate,
}

-- The sum of a counter over all types.
unfoldable pub total : (QTypeStats → ℕ) → List (ℕ × QTypeStats) → ℕ
total f [] = 0
total f ((q, s) ∷ m) = f s + total f m

abbrev no_stats : QTypeStats
no_stats = record { hits = 0; misses = 0; evictions = 0; expirations = 0 }

abbrev stats_or : Option QTypeStats → QTypeStats
stats_or none = no_stats
stats_or (some s) = s

total-store :
    (f : QTypeStats → ℕ) (q : ℕ) (s : QTypeStats) (m : List (ℕ × QTypeStats))
    → f no_stats ≡ 0
    → total f (store q s m) + f (stats_or (find q m)) ≡ total f m + f s
unfolding total store find
total-store f q s [] z = omega arith
total-store f q s ((p, t) ∷ m) z = ground (arith, total-store f q s m z)

total-put :
    (c : Cache) (f : QTypeStats → ℕ) (q : ℕ) (s : QTypeStats)
    → f no_stats ≡ 0
    → total f (put_qtype c q s).per_qtype + f (qtype_stats c q) ≡ total f c.per_qtype + f s
unfolding put_qtype qtype_stats
total-put c f q s z = ground (arith, total-store f q s c.per_qtype z)

-- How the three sums change when one counter of one type goes up by the given amounts.
abbrev pub Grows : Cache → Cache → ℕ → ℕ → ℕ → Type 0
Grows c d h m e =
    (total (λ s. s.hits) d.per_qtype ≡ total (λ s. s.hits) c.per_qtype + h)
    × (total (λ s. s.misses) d.per_qtype ≡ total (λ s. s.misses) c.per_qtype + m)
    × (total (λ s. s.evictions) d.per_qtype ≡ total (λ s. s.evictions) c.per_qtype + e)

put-Grows :
    (c : Cache) (q : ℕ) (s : QTypeStats) (h m e : ℕ)
    → s.hits ≡ (qtype_stats c q).hits + h
    → s.misses ≡ (qtype_stats c q).misses + m
    → s.evictions ≡ (qtype_stats c q).evictions + e
    → Grows c (put_qtype c q s) h m e
put-Grows c q s h m e ph pm pe = (
  omega (arith, total-put c (λ x. x.hits) q s refl),
  omega (arith, total-put c (λ x. x.misses) q s refl),
  omega (arith, total-put c (λ x. x.evictions) q s refl),
)

add_qtype_hit-Grows : (c : Cache) (q : ℕ) → Grows c (add_qtype_hit c q) 1 0 0
unfolding add_qtype_hit
add_qtype_hit-Grows c q = put-Grows c q _ 1 0 0 refl (omega arith) (omega arith)

add_qtype_miss-Grows : (c : Cache) (q : ℕ) → Grows c (add_qtype_miss c q) 0 1 0
unfolding add_qtype_miss
add_qtype_miss-Grows c q = put-Grows c q _ 0 1 0 (omega arith) refl (omega arith)

pub add_qtype_eviction-Grows : (c : Cache) (q : ℕ) → Grows c (add_qtype_eviction c q) 0 0 1
unfolding add_qtype_eviction
add_qtype_eviction-Grows c q = put-Grows c q _ 0 0 1 (omega arith) (omega arith) refl

add_qtype_expiration-Grows : (c : Cache) (q : ℕ) → Grows c (add_qtype_expiration c q) 0 0 0
unfolding add_qtype_expiration
add_qtype_expiration-Grows c q = put-Grows c q _ 0 0 0 (omega arith) (omega arith) (omega arith)

-- The totals are the sums over the types, and each hit is of at least one of the four kinds.
pub record IsCounted (c : Cache) : Type 0 where
  pub hits : c.counters.hits ≡ total (λ s. s.hits) c.per_qtype
  pub misses : c.counters.misses ≡ total (λ s. s.misses) c.per_qtype
  pub evictions : c.counters.evictions ≡ total (λ s. s.evictions) c.per_qtype
  pub kinds :
      c.counters.hits
      ≤ c.counters.fresh_hits + c.counters.prefetched_hits + c.counters.negative_hits
        + c.counters.servfail_hits
  pub fresh : c.counters.fresh_hits ≤ c.counters.hits

pub count_miss-IsCounted : (c : Cache) (q : ℕ) → IsCounted c → IsCounted (count_miss c q)
unfolding count_miss
count_miss-IsCounted c q v =
    let d = record c { counters = record c.counters { misses = c.counters.misses + 1 } } in
    let (h, m, e) = add_qtype_miss-Grows d q in
    record {
      hits = omega arith;
      misses = omega arith;
      evictions = omega arith;
      kinds = v.kinds;
      fresh = v.fresh;
    }

mark_expired-IsCounted :
    (c : Cache) (k : CacheKey) (e : CacheEntry) → IsCounted c → IsCounted (mark_expired c k e)
unfolding mark_expired
mark_expired-IsCounted c k e v =
    if_intro IsCounted e.expired_observed (λ _. v)
      (λ _.
        let d = record c { ll = store k (record e { expired_observed = true }) c.ll } in
        let (h, m, x) = add_qtype_expiration-Grows d k.qtype in
        record {
          hits = omega arith;
          misses = omega arith;
          evictions = omega arith;
          kinds = v.kinds;
          fresh = v.fresh;
        })

-- Only the counters are read.
pub with_ll-IsCounted :
    (c : Cache) (l : List (CacheKey × CacheEntry)) → IsCounted c → IsCounted (record c { ll = l })
with_ll-IsCounted c l v = record {
  hits = v.hits;
  misses = v.misses;
  evictions = v.evictions;
  kinds = v.kinds;
  fresh = v.fresh;
}

pub expire-IsCounted :
    (c : Cache) (k : CacheKey) (e : CacheEntry) → IsCounted c → IsCounted (expire c k e)
unfolding expire
expire-IsCounted c k e v =
    let m = mark_expired-IsCounted c k e v in
    if_intro IsCounted c.optimistic (λ _. m) (λ _. with_ll-IsCounted (mark_expired c k e) _ m)

pub serve-IsCounted :
    (c : Cache) (k : CacheKey) (e : CacheEntry) → IsCounted c → IsCounted (serve c k e).0
unfolding serve
serve-IsCounted c k e v =
    let e' = record e { hits = (e.hits + 1) % 4294967296 } in
    let d = record c { counters = count_hit c e; ll = (k, e') ∷ without k c.ll } in
    let (h, m, x) = add_qtype_hit-Grows d k.qtype in
    record {
      hits = omega arith;
      misses = omega arith;
      evictions = omega arith;
      kinds = ground (arith, v.kinds);
      fresh = ground (arith, v.fresh);
    }
