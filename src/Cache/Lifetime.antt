-- ===== src/Cache/Lifetime.antt =====
-- How long an entry is served (webgui/internal/dnsserver/cache.go, `get`, `set`, `clamp`).
use resolix.Common.{
  ℕ, ◌+◌, ◌-◌, ◌*◌, ◌/◌, ◌%◌, ◌≤◌, ◌<◌, ◌≡◌, refl, Option, none, some, arith, leb, ==_refl,
  if◌then◌else◌, find,
}
use resolix.Cache.Entry.{
  CacheKey, CacheEntry, key_comparable, remaining_ttl, to_u32, second, max_u32,
}
use resolix.Cache.Store.{Cache, clamp, get, get_at, get_found, serve, set, set_at, push_front}

-- The entry that a live read returns: its hit is counted, as a uint32.
abbrev pub hit_once : CacheEntry → CacheEntry
hit_once e = record e { hits = (e.hits + 1) % 4294967296 }

-- An entry stored before `now` is live while its age in whole seconds is below its TTL.
abbrev pub age : CacheEntry → ℕ → ℕ
age e now = (now - e.stored_at) / second

get_found-eq :
    (c : Cache) (k : CacheKey) (e : CacheEntry) (now : ℕ)
    → e.stored_at ≤ now
    → e.ttl ≤ max_u32
    → (get_found c k e (remaining_ttl e now)).1
      ≡ (if leb e.ttl (age e now) then none else some (hit_once e, e.ttl - age e now))
unfolding get_found serve remaining_ttl to_u32
get_found-eq c k e now h w = ground arith

find-set_at_self :
    (c : Cache) (k : CacheKey) (e : CacheEntry) (o : Option CacheEntry)
    → find k (set_at c k e o).ll ≡ some e
unfolding set_at push_front find
find-set_at_self c k e none = rw (==_refl k) refl
find-set_at_self c k e (some old) = rw (==_refl k) refl

pub find-set_self : (c : Cache) (k : CacheKey) (e : CacheEntry) → find k (set c k e).ll ≡ some e
unfolding set
find-set_self c k e = find-set_at_self c k e (find k c.ll)

get-eq :
    (c : Cache) (k : CacheKey) (e : CacheEntry) (now : ℕ)
    → find k c.ll ≡ some e
    → e.stored_at ≤ now
    → e.ttl ≤ max_u32
    → (get c k now).1
      ≡ (if leb e.ttl (age e now) then none else some (hit_once e, e.ttl - age e now))
unfolding get get_at
get-eq c k e now h s w = rw (h, get_at) (get_found-eq c k e now s w)

-- For an entry whose TTL fits a uint32, a `get` of its key right after `set`, at a time not before
-- the entry was stored, finds nothing once the age in whole seconds has reached the TTL, and before
-- that returns the entry with one more hit and the TTL less the age.
pub get-set :
    (c : Cache) (k : CacheKey) (e : CacheEntry) (now : ℕ)
    → e.stored_at ≤ now
    → e.ttl ≤ max_u32
    → (get (set c k e) k now).1
      ≡ (if leb e.ttl (age e now) then none else some (hit_once e, e.ttl - age e now))
get-set c k e now s w = get-eq (set c k e) k e now (find-set_self c k e) s w

get_at_live :
    (c : Cache) (k : CacheKey) (now : ℕ) (o : Option CacheEntry) (out : CacheEntry) (r : ℕ)
    → find k c.ll ≡ o
    → (get_at c k now o).1 ≡ some (out, r)
    → (e : CacheEntry) × (find k c.ll ≡ some e)
      × ((get_found c k e (remaining_ttl e now)).1 ≡ some (out, r))
unfolding get_at
get_at_live c k now none out r p h = cc
get_at_live c k now (some e) out r p h = (e, p, h)

get_found_live :
    (c : Cache) (k : CacheKey) (e : CacheEntry) (now : ℕ) (out : CacheEntry) (r : ℕ)
    → e.stored_at ≤ now
    → e.ttl ≤ max_u32
    → (get_found c k e (remaining_ttl e now)).1 ≡ some (out, r)
    → (out ≡ hit_once e) × (0 < r) × (r + age e now ≡ e.ttl)
unfolding get_found serve remaining_ttl to_u32
get_found_live c k e now out r s w h = ground arith

-- What `get` returns is the stored entry of the key with one more hit, never an expired one: if the
-- entry was not stored after `now` and its TTL fits a uint32, then the TTL returned is positive,
-- it is the entry's TTL less its age, and `now` is before the end of the entry's lifetime.
pub get-live :
    (c : Cache) (k : CacheKey) (now : ℕ) (out : CacheEntry) (r : ℕ)
    → ((e : CacheEntry) → find k c.ll ≡ some e → (e.stored_at ≤ now) × (e.ttl ≤ max_u32))
    → (get c k now).1 ≡ some (out, r)
    → (e : CacheEntry) × (find k c.ll ≡ some e)
      × (out ≡ hit_once e)
      × (0 < r)
      × (r + age e now ≡ e.ttl)
      × (now < e.stored_at + e.ttl * second)
unfolding get
get-live c k now out r timely h =
    let (e, found, live) = get_at_live c k now (find k c.ll) out r refl h in
    let (old, fits) = timely e found in
    let (same, positive, left) = get_found_live c k e now out r old fits live in
    (e, found, same, positive, left, omega arith)

-- The clamp keeps every TTL inside the cache's bounds and leaves alone the TTLs that are inside.
pub clamp_bounds :
    (c : Cache) (ttl : ℕ)
    → c.min_ttl ≤ c.max_ttl
    → (c.min_ttl ≤ clamp c ttl)
      × (clamp c ttl ≤ c.max_ttl)
      × (c.min_ttl ≤ ttl → ttl ≤ c.max_ttl → clamp c ttl ≡ ttl)
unfolding clamp
clamp_bounds c ttl h = ground arith
