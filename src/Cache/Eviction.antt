-- ===== src/Cache/Eviction.antt =====
-- Which entry `set` displaces (webgui/internal/dnsserver/cache.go).
use resolix.Common.{
  ◌≡◌, refl, Bool, false, Option, none, some, arith, leb, Bool-cases, inl, inr, ◌==◌, ==_iff,
  if◌then◌else◌, ◌∙◌, ap, length, last?, find, Unique, find-without, find-init_of_ne,
  find-init_of_self,
}
use resolix.Cache.Entry.{CacheKey, CacheEntry, key_comparable}
use resolix.Cache.Store.{Cache, set, set_at, push_front, evict, evict_at}
use resolix.Cache.Invariant.{IsValid}

abbrev pub last_key : Option (CacheKey × CacheEntry) → Option CacheKey
last_key none = none
last_key (some (k, e)) = some k

abbrev pub victim_at : Cache → Option CacheEntry → Option CacheKey
victim_at c (some old) = none
victim_at c none = if leb c.cap (length c.ll) then last_key (last? c.ll) else none

-- The key that a `set` of `k` displaces: the least recently used one, if the cache is full and does
-- not hold `k`.
abbrev pub victim : Cache → CacheKey → Option CacheKey
victim c k = victim_at c (find k c.ll)

abbrev pub is_key : Option CacheKey → CacheKey → Bool
is_key none j = false
is_key (some k) j = k == j

find-evict_at :
    (c : Cache) (j : CacheKey) (o : Option (CacheKey × CacheEntry))
    → Unique c.ll
    → last? c.ll ≡ o
    → find j (evict_at c o).ll ≡ (if is_key (last_key o) j then none else find j c.ll)
unfolding evict_at
find-evict_at c j none u h = refl
find-evict_at c j (some (k, w)) u h = elim (Bool-cases (k == j)) [
  | inl same ↦
      let e : k ≡ j = (==_iff k j).0 same in
      rw same (find-init_of_self j w c.ll u (h ∙ ap (λ i. some (i, w)) e))
  | inr other ↦ rw other (find-init_of_ne j k w c.ll h other)
]

find-evict :
    (c : Cache) (j : CacheKey)
    → Unique c.ll
    → find j (evict c).ll ≡ (if is_key (last_key (last? c.ll)) j then none else find j c.ll)
unfolding evict
find-evict c j u = find-evict_at _ j (last? c.ll) u refl

find-set_at :
    (c : Cache) (k j : CacheKey) (e : CacheEntry) (o : Option CacheEntry)
    → IsValid c
    → find j (set_at c k e o).ll
      ≡ (if k == j then some e else if is_key (victim_at c o) j then none else find j c.ll)
unfolding set_at push_front find
find-set_at c k j e (some old) v = ground (arith, find-without k j c.ll)
find-set_at c k j e none v = elim (Bool-cases (leb c.cap (length c.ll))) [
  | inl full ↦ rw full (ap (λ o. if k == j then some e else o) (find-evict c j v.unique))
  | inr spare ↦ rw spare refl
]

-- In a valid cache, after `set k e` the key `k` is found with `e`, the displaced key, if there is
-- one, is not found, and every other key is found exactly as before.
pub find-set :
    (c : Cache) (k j : CacheKey) (e : CacheEntry)
    → IsValid c
    → find j (set c k e).ll
      ≡ (if k == j then some e else if is_key (victim c k) j then none else find j c.ll)
unfolding set
find-set c k j e v = find-set_at c k j e (find k c.ll) v
