-- ===== src/Cache/Invariant.antt =====
-- The shape of the cache under every operation.
use resolix.Common.{
  ℕ, suc, ◌+◌, ◌≤◌, ◌<◌, ◌≡◌, refl, Bool, Option, none, some, arith, Bool-cases, if_intro, inl, inr,
  ==_refl, length, last?, find, without, Unique, Fresh, find-without, without-Unique,
  length-without, length-without_le, store-Unique, length-store, init_of-Unique, find-init_of,
  length-init_of, length_of_last-none, leb, ℤ, not_pos,
}
use resolix.Cache.Entry.{CacheKey, CacheEntry, key_comparable, remaining_ttl}
use resolix.Cache.Invalidation.{length-sweep, sweep-Unique}
use resolix.Cache.Store.{
  Cache, new_cache, capacity_of, ttl_bounds, count_miss, expire, mark_expired, serve, get_found,
  get_at, get, get_stale_at, get_stale, evict_at, evict, push_front, set_at, set, clear,
  reconfigure, invalidate,
}

pub record IsValid (c : Cache) : Type 0 where
  pub room : 0 < c.cap
  pub positive : 0 < c.min_ttl
  pub bounds : c.min_ttl ≤ c.max_ttl
  pub bounded : length c.ll ≤ c.cap
  pub unique : Unique c.ll

capacity_of_pos : (n : ℤ) → 0 < capacity_of n
unfolding capacity_of
capacity_of_pos n = ground arith

ttl_bounds_le : (lo hi : ℕ) → (ttl_bounds lo hi).0 ≤ (ttl_bounds lo hi).1
unfolding ttl_bounds
ttl_bounds_le lo hi = ground arith

ttl_bounds_pos : (lo hi : ℕ) → 0 < (ttl_bounds lo hi).0
unfolding ttl_bounds
ttl_bounds_pos lo hi = ground arith

pub new_cache-IsValid : (capacity : ℤ) (lo hi : ℕ) → IsValid (new_cache capacity lo hi)
unfolding new_cache
new_cache-IsValid capacity lo hi = record {
  room = capacity_of_pos capacity;
  positive = ttl_bounds_pos lo hi;
  bounds = ttl_bounds_le lo hi;
  bounded = omega arith;
  unique = tt;
}

pub reconfigure-IsValid :
    (c : Cache) (capacity : ℤ) (lo hi : ℕ) (b : Bool) → IsValid (reconfigure c capacity lo hi b)
unfolding reconfigure
reconfigure-IsValid c capacity lo hi b = record {
  room = capacity_of_pos capacity;
  positive = ttl_bounds_pos lo hi;
  bounds = ttl_bounds_le lo hi;
  bounded = omega arith;
  unique = tt;
}

pub clear-IsValid : (c : Cache) → IsValid c → IsValid (clear c).0
unfolding clear
clear-IsValid c v = record {
  room = v.room;
  positive = v.positive;
  bounds = v.bounds;
  bounded = omega arith;
  unique = tt;
}

count_miss-IsValid : (c : Cache) (q : ℕ) → IsValid c → IsValid (count_miss c q)
unfolding count_miss
count_miss-IsValid c q v = record {
  room = v.room;
  positive = v.positive;
  bounds = v.bounds;
  bounded = v.bounded;
  unique = v.unique;
}

module _ (c : Cache) (k : CacheKey) (e : CacheEntry) (v : IsValid c) where
  -- The key is put in front and every older pair with it goes.
  touch_bounded :
      {old : CacheEntry} → find k c.ll ≡ some old → suc (length (without k c.ll)) ≤ c.cap
  touch_bounded {old} h = omega (arith, length-without k old c.ll v.unique h, v.bounded)

  without-Fresh : Fresh k (without k c.ll)
  without-Fresh = rw (find-without k k c.ll, ==_refl k) refl

  mark_expired-IsValid : find k c.ll ≡ some e → IsValid (mark_expired c k e)
  unfolding mark_expired
  mark_expired-IsValid h = elim (Bool-cases e.expired_observed) [
    | inl seen ↦ rw seen v
    | inr fresh ↦ rw fresh (record {
      room = v.room;
      positive = v.positive;
      bounds = v.bounds;
      bounded = rw (length-store k _ e c.ll h) v.bounded;
      unique = store-Unique k _ c.ll v.unique;
    })
  ]

  serve-IsValid : find k c.ll ≡ some e → IsValid (serve c k e).0
  unfolding serve
  serve-IsValid h = record {
    room = v.room;
    positive = v.positive;
    bounds = v.bounds;
    bounded = touch_bounded h;
    unique = (without-Fresh, without-Unique k c.ll v.unique);
  }

drop-IsValid : (c : Cache) (k : CacheKey) → IsValid c → IsValid (record c { ll = without k c.ll })
drop-IsValid c k v = record {
  room = v.room;
  positive = v.positive;
  bounds = v.bounds;
  bounded = omega (arith, length-without_le k c.ll, v.bounded);
  unique = without-Unique k c.ll v.unique;
}

expire-IsValid :
    (c : Cache) (k : CacheKey) (e : CacheEntry)
    → find k c.ll ≡ some e
    → IsValid c
    → IsValid (expire c k e)
unfolding expire
expire-IsValid c k e h v =
    let m : IsValid (mark_expired c k e) = mark_expired-IsValid c k e v h in
    if_intro IsValid c.optimistic (λ _. m) (λ _. drop-IsValid (mark_expired c k e) k m)

get_at-IsValid :
    (c : Cache) (k : CacheKey) (now : ℕ) (o : Option CacheEntry)
    → find k c.ll ≡ o
    → IsValid c
    → IsValid (get_at c k now o).0
unfolding get_at get_found
get_at-IsValid c k now none h v = count_miss-IsValid c k.qtype v
get_at-IsValid c k now (some e) h v =
    if_intro (λ (r : Cache × Option (CacheEntry × ℕ)). IsValid r.0) (not_pos (remaining_ttl e now))
      (λ _. count_miss-IsValid (expire c k e) k.qtype (expire-IsValid c k e h v))
      (λ _. serve-IsValid c k e v h)

pub get-IsValid : (c : Cache) (k : CacheKey) (now : ℕ) → IsValid c → IsValid (get c k now).0
unfolding get
get-IsValid c k now v = get_at-IsValid c k now (find k c.ll) refl v

get_stale_at-IsValid :
    (c : Cache) (now : ℕ) (o : Option CacheEntry) → IsValid c → IsValid (get_stale_at c now o).0
unfolding get_stale_at
get_stale_at-IsValid c now none v = v
get_stale_at-IsValid c now (some e) v = record {
  room = v.room;
  positive = v.positive;
  bounds = v.bounds;
  bounded = v.bounded;
  unique = v.unique;
}

pub get_stale-IsValid :
    (c : Cache) (k : CacheKey) (now : ℕ) → IsValid c → IsValid (get_stale c k now).0
unfolding get_stale
get_stale-IsValid c k now v = get_stale_at-IsValid c now (find k c.ll) v

-- An eviction leaves room for one entry.
evict_at-IsValid :
    (c : Cache) (o : Option (CacheKey × CacheEntry))
    → last? c.ll ≡ o
    → IsValid c
    → IsValid (evict_at c o)
      × (suc (length (evict_at c o).ll) ≤ c.cap)
      × ((evict_at c o).cap ≡ c.cap)
unfolding evict_at
evict_at-IsValid c none h v = (v, omega (arith, length_of_last-none c.ll h, v.room), refl)
evict_at-IsValid c (some (k, w)) h v = (
  record {
    room = v.room;
    positive = v.positive;
    bounds = v.bounds;
    bounded = omega (arith, length-init_of c.ll h, v.bounded);
    unique = init_of-Unique c.ll v.unique;
  },
  omega (arith, length-init_of c.ll h, v.bounded),
  refl,
)

push_front-IsValid :
    (c : Cache) (k : CacheKey) (e : CacheEntry)
    → find k c.ll ≡ none
    → suc (length c.ll) ≤ c.cap
    → IsValid c
    → IsValid (push_front c k e)
unfolding push_front
push_front-IsValid c k e fresh fits v = record {
  room = v.room;
  positive = v.positive;
  bounds = v.bounds;
  bounded = fits;
  unique = (fresh, v.unique);
}

-- `evict` counts first; the count is not part of the shape.
evict-IsValid :
    (c : Cache)
    → IsValid c
    → IsValid (evict c) × (suc (length (evict c).ll) ≤ c.cap) × ((evict c).cap ≡ c.cap)
unfolding evict
evict-IsValid c v =
    evict_at-IsValid
      (record c { counters = record c.counters { evictions = c.counters.evictions + 1 } })
      (last? c.ll) refl
      (record {
        room = v.room;
        positive = v.positive;
        bounds = v.bounds;
        bounded = v.bounded;
        unique = v.unique;
      })

-- An evicted list holds no key that the full list did not hold.
evict_at-fresh :
    (c : Cache) (k : CacheKey) (o : Option (CacheKey × CacheEntry))
    → find k c.ll ≡ none
    → find k (evict_at c o).ll ≡ none
unfolding evict_at
evict_at-fresh c k none h = h
evict_at-fresh c k (some (j, w)) h = find-init_of k c.ll h

evict-fresh : (c : Cache) (k : CacheKey) → find k c.ll ≡ none → find k (evict c).ll ≡ none
unfolding evict
evict-fresh c k h = evict_at-fresh _ k (last? c.ll) h

set_at-IsValid :
    (c : Cache) (k : CacheKey) (e : CacheEntry) (o : Option CacheEntry)
    → find k c.ll ≡ o
    → IsValid c
    → IsValid (set_at c k e o)
unfolding set_at
set_at-IsValid c k e (some old) h v =
    push_front-IsValid (record c { ll = without k c.ll }) k e (without-Fresh c k e v)
      (touch_bounded c k e v h) (drop-IsValid c k v)
set_at-IsValid c k e none h v =
    if_intro (λ (d : Cache). IsValid (push_front d k e)) (leb c.cap (length c.ll))
      (λ full.
        let (valid, fits, same) = evict-IsValid c v in
        push_front-IsValid (evict c) k e (evict-fresh c k h) (rw same fits) valid)
      (λ spare. push_front-IsValid c k e h (ground arith) v)

pub set-IsValid : (c : Cache) (k : CacheKey) (e : CacheEntry) → IsValid c → IsValid (set c k e)
unfolding set
set-IsValid c k e v = set_at-IsValid c k e (find k c.ll) refl v

pub invalidate-IsValid : (c : Cache) (p : CacheKey → Bool) → IsValid c → IsValid (invalidate c p).0
unfolding invalidate
invalidate-IsValid c p v = record {
  room = v.room;
  positive = v.positive;
  bounds = v.bounds;
  bounded = omega (arith, length-sweep p c.ll, v.bounded);
  unique = sweep-Unique p c.ll v.unique;
}
