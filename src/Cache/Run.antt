-- ===== src/Cache/Run.antt =====
-- Any sequence of calls on a new cache: the shape that it keeps, and what its counters add up to.
use resolix.Common.{ℕ, Bool, List, [], ◌∷◌, ℤ}
use resolix.Cache.Entry.{CacheKey, CacheEntry, key_comparable}
use resolix.Cache.Store.{Cache, new_cache, get, get_stale, set, clear, reconfigure, invalidate}
use resolix.Cache.Invariant.{
  IsValid, new_cache-IsValid, get-IsValid, get_stale-IsValid, set-IsValid, clear-IsValid,
  reconfigure-IsValid, invalidate-IsValid,
}

-- A call of a method under the cache's mutex, with the time that it reads.
pub data Call : Type 0 where
  lookup : CacheKey → ℕ → Call
  lookup_stale : CacheKey → ℕ → Call
  insert : CacheKey → CacheEntry → Call
  clear_all : Call
  configure : ℤ → ℕ → ℕ → Bool → Call
  remove : (CacheKey → Bool) → Call

unfoldable pub step : Cache → Call → Cache
step c (lookup k now) = (get c k now).0
step c (lookup_stale k now) = (get_stale c k now).0
step c (insert k e) = set c k e
step c clear_all = (clear c).0
step c (configure n lo hi b) = reconfigure c n lo hi b
step c (remove p) = (invalidate c p).0

unfoldable pub run : Cache → List Call → Cache
unfolding step
run c [] = c
run c (x ∷ calls) = run (step c x) calls

pub step-IsValid : (c : Cache) (x : Call) → IsValid c → IsValid (step c x)
unfolding step
step-IsValid c (lookup k now) v = get-IsValid c k now v
step-IsValid c (lookup_stale k now) v = get_stale-IsValid c k now v
step-IsValid c (insert k e) v = set-IsValid c k e v
step-IsValid c clear_all v = clear-IsValid c v
step-IsValid c (configure n lo hi b) v = reconfigure-IsValid c n lo hi b
step-IsValid c (remove p) v = invalidate-IsValid c p v

run_keeps : (c : Cache) (calls : List Call) → IsValid c → IsValid (run c calls)
unfolding run
run_keeps c [] v = v
run_keeps c (x ∷ calls) v = run_keeps (step c x) calls (step-IsValid c x v)

-- Whatever the arguments of newCache and whatever calls follow, the capacity is positive, the
-- smaller TTL bound is positive and does not pass the larger, the number of entries does not pass the capacity, and
-- no key stands twice in the list.
pub run-IsValid :
    (capacity : ℤ) (lo hi : ℕ) (calls : List Call) → IsValid (run (new_cache capacity lo hi) calls)
run-IsValid capacity lo hi calls =
    run_keeps (new_cache capacity lo hi) calls (new_cache-IsValid capacity lo hi)
