-- ===== src/Cache/Store.antt =====
-- The bounded LRU store (webgui/internal/dnsserver/cache.go). `ll` is the list, its front the most
-- recently used entry. The map `items` leads from a key to its element of the list, so a read of
-- the map is a search of the list by key. The mutex makes each operation one step; the time that
-- an operation reads is its last argument.
use resolix.Common.{
  ℕ, ◌+◌, ◌%◌, Bool, true, false, not, ◌&&◌, Option, none, some, List, [], ◌∷◌, ltb, leb, ◌==◌,
  nat_comparable, if◌then◌else◌, length, last?, init_of, find, store, without, ℤ, pos, negsuc,
  not_pos,
}
use resolix.Cache.Entry.{CacheKey, CacheEntry, key_comparable, remaining_ttl, to_u32}

pub record QTypeStats : Type 0 where
  pub hits : ℕ
  pub misses : ℕ
  pub evictions : ℕ
  pub expirations : ℕ

pub record Counters : Type 0 where
  pub hits : ℕ
  pub fresh_hits : ℕ
  pub negative_hits : ℕ
  pub prefetched_hits : ℕ
  pub servfail_hits : ℕ
  pub misses : ℕ
  pub stale_hits : ℕ
  pub evictions : ℕ
  pub cleared : ℕ
  pub refreshes : ℕ
  pub prefetches : ℕ
  pub coalesced : ℕ
  pub invalidated : ℕ

pub record Cache : Type 0 where
  pub cap : ℕ
  pub min_ttl : ℕ
  pub max_ttl : ℕ
  pub optimistic : Bool
  pub ll : List (CacheKey × CacheEntry)
  pub counters : Counters
  pub per_qtype : List (ℕ × QTypeStats)

abbrev pub default_cache_size : ℕ
default_cache_size = 25000

abbrev pub min_cache_ttl : ℕ
min_cache_ttl = 60

abbrev pub max_cache_ttl : ℕ
max_cache_ttl = 600

-- The repairs that newCache and reconfigure make to their arguments.
unfoldable pub capacity_of : ℤ → ℕ
capacity_of c = elim c [
  | pos n ↦ if leb n 0 then default_cache_size else n
  | negsuc n ↦ default_cache_size
]

unfoldable pub ttl_bounds : ℕ → ℕ → ℕ × ℕ
ttl_bounds min_ttl max_ttl =
    let lo : ℕ = if min_ttl == 0 then min_cache_ttl else min_ttl in
    let hi : ℕ = if max_ttl == 0 then max_cache_ttl else max_ttl in
    if ltb hi lo then (hi, lo) else (lo, hi)

abbrev pub no_counters : Counters
no_counters = record {
  hits = 0;
  fresh_hits = 0;
  negative_hits = 0;
  prefetched_hits = 0;
  servfail_hits = 0;
  misses = 0;
  stale_hits = 0;
  evictions = 0;
  cleared = 0;
  refreshes = 0;
  prefetches = 0;
  coalesced = 0;
  invalidated = 0;
}

unfoldable pub new_cache : ℤ → ℕ → ℕ → Cache
unfolding capacity_of ttl_bounds
new_cache capacity min_ttl max_ttl =
    let (lo, hi) = ttl_bounds min_ttl max_ttl in
    record {
      cap = capacity_of capacity;
      min_ttl = lo;
      max_ttl = hi;
      optimistic = false;
      ll = [];
      counters = no_counters;
      per_qtype = [];
    }

unfoldable pub clamp : Cache → ℕ → ℕ
clamp c ttl = if ltb ttl c.min_ttl then c.min_ttl else if ltb c.max_ttl ttl then c.max_ttl else ttl

-- The counters of a question type; those of one never seen are zero.
unfoldable pub qtype_stats : Cache → ℕ → QTypeStats
qtype_stats c qtype = elim (find qtype c.per_qtype) [
  | none ↦ record { hits = 0; misses = 0; evictions = 0; expirations = 0 }
  | some s ↦ s
]

unfoldable pub put_qtype : Cache → ℕ → QTypeStats → Cache
put_qtype c qtype s = record c { per_qtype = store qtype s c.per_qtype }

unfoldable pub add_qtype_hit : Cache → ℕ → Cache
unfolding put_qtype
add_qtype_hit c q = let s = qtype_stats c q in put_qtype c q (record s { hits = s.hits + 1 })

unfoldable pub add_qtype_miss : Cache → ℕ → Cache
unfolding put_qtype
add_qtype_miss c q = let s = qtype_stats c q in put_qtype c q (record s { misses = s.misses + 1 })

unfoldable pub add_qtype_eviction : Cache → ℕ → Cache
unfolding put_qtype
add_qtype_eviction c q =
    let s = qtype_stats c q in put_qtype c q (record s { evictions = s.evictions + 1 })

unfoldable pub add_qtype_expiration : Cache → ℕ → Cache
unfolding put_qtype
add_qtype_expiration c q =
    let s = qtype_stats c q in put_qtype c q (record s { expirations = s.expirations + 1 })

-- A miss is counted twice: in the totals and by type.
unfoldable pub count_miss : Cache → ℕ → Cache
unfolding add_qtype_miss
count_miss c q =
    add_qtype_miss (record c { counters = record c.counters { misses = c.counters.misses + 1 } }) q

abbrev pub bump : Bool → ℕ → ℕ
bump b n = if b then n + 1 else n

unfoldable pub count_hit : Cache → CacheEntry → Counters
count_hit c e = record c.counters {
  hits = c.counters.hits + 1;
  prefetched_hits = bump e.prefetched c.counters.prefetched_hits;
  negative_hits = bump e.negative c.counters.negative_hits;
  servfail_hits = bump e.servfail c.counters.servfail_hits;
  fresh_hits = bump (not e.prefetched && not e.negative && not e.servfail) c.counters.fresh_hits;
}

-- The first sight of an expired entry: the entry is shared with the list, so later reads see the
-- mark, and the expiration is counted once.
unfoldable pub mark_expired : Cache → CacheKey → CacheEntry → Cache
unfolding add_qtype_expiration
mark_expired c key e =
    if e.expired_observed
    then c
    else add_qtype_expiration
        (record c { ll = store key (record e { expired_observed = true }) c.ll }) key.qtype

-- The branch of `get` for an expired entry; outside optimistic mode the element goes.
unfoldable pub expire : Cache → CacheKey → CacheEntry → Cache
expire c key e =
    let seen = mark_expired c key e in
    if c.optimistic then seen else record seen { ll = without key seen.ll }

-- The branch for a live entry: counters, `hits` as a uint32, and the move to the front.
unfoldable pub serve : Cache → CacheKey → CacheEntry → Cache × CacheEntry
unfolding count_hit add_qtype_hit
serve c key e =
    let e' = record e { hits = (e.hits + 1) % 4294967296 } in
    (
      add_qtype_hit (record c { counters = count_hit c e; ll = (key, e') ∷ without key c.ll })
          key.qtype,
      e',
    )

unfoldable pub get_found : Cache → CacheKey → CacheEntry → ℤ → Cache × Option (CacheEntry × ℕ)
get_found c key e remaining =
    if not_pos remaining
    then (count_miss (expire c key e) key.qtype, none)
    else (let (c', e') = serve c key e in (c', some (e', to_u32 remaining)))

-- `get` once the map has been read.
unfoldable pub get_at : Cache → CacheKey → ℕ → Option CacheEntry → Cache × Option (CacheEntry × ℕ)
get_at c key now none = (count_miss c key.qtype, none)
get_at c key now (some e) = get_found c key e (remaining_ttl e now)

unfoldable pub get : Cache → CacheKey → ℕ → Cache × Option (CacheEntry × ℕ)
get c key now = get_at c key now (find key c.ll)

unfoldable pub get_stale_at : Cache → ℕ → Option CacheEntry → Cache × Option CacheEntry
get_stale_at c now none = (c, none)
get_stale_at c now (some e) = (
  record c {
    counters = record c.counters {
      stale_hits = bump (not_pos (remaining_ttl e now)) c.counters.stale_hits;
    };
  },
  some e,
)

unfoldable pub get_stale : Cache → CacheKey → ℕ → Cache × Option CacheEntry
get_stale c key now = get_stale_at c now (find key c.ll)

-- The eviction of `set`: the back of the list goes, and is counted under its type.
unfoldable pub evict_at : Cache → Option (CacheKey × CacheEntry) → Cache
unfolding add_qtype_eviction
evict_at c none = c
evict_at c (some (k, v)) = record (add_qtype_eviction c k.qtype) { ll = init_of c.ll }

unfoldable pub evict : Cache → Cache
evict c =
    evict_at (record c { counters = record c.counters { evictions = c.counters.evictions + 1 } })
      (last? c.ll)

-- The head of the list in the last line of `set`.
unfoldable pub push_front : Cache → CacheKey → CacheEntry → Cache
push_front c key e = record c { ll = (key, e) ∷ c.ll }

unfoldable pub set_at : Cache → CacheKey → CacheEntry → Option CacheEntry → Cache
set_at c key e (some old) = push_front (record c { ll = without key c.ll }) key e
set_at c key e none = push_front (if leb c.cap (length c.ll) then evict c else c) key e

unfoldable pub set : Cache → CacheKey → CacheEntry → Cache
set c key e = set_at c key e (find key c.ll)

unfoldable pub clear : Cache → Cache × ℕ
clear c = (
  record c { ll = []; counters = record c.counters { cleared = c.counters.cleared + length c.ll } },
  length c.ll,
)

unfoldable pub reconfigure : Cache → ℤ → ℕ → ℕ → Bool → Cache
unfolding clear
reconfigure c capacity min_ttl max_ttl optimistic =
    let (lo, hi) = ttl_bounds min_ttl max_ttl in
    record (clear c).0 {
      cap = capacity_of capacity;
      min_ttl = lo;
      max_ttl = hi;
      optimistic = optimistic;
    }

-- The loop over the map, which stands in no fixed order: what stays, and the count of the others.
unfoldable pub sweep :
    (CacheKey → Bool) → List (CacheKey × CacheEntry) → List (CacheKey × CacheEntry) × ℕ
sweep predicate [] = ([], 0)
sweep predicate ((k, v) ∷ ll) =
    let (kept, removed) = sweep predicate ll in
    if predicate k then (kept, removed + 1) else ((k, v) ∷ kept, removed)

unfoldable pub invalidate : Cache → (CacheKey → Bool) → Cache × ℕ
unfolding sweep
invalidate c predicate =
    let (kept, removed) = sweep predicate c.ll in
    (
      record c {
        ll = kept;
        counters = record c.counters { invalidated = c.counters.invalidated + removed };
      },
      removed,
    )
