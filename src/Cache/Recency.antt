-- ===== src/Cache/Recency.antt =====
-- The entry that `set` displaces is the one used longest ago (webgui/internal/dnsserver/cache.go).
use mathlib.Core.Path.{subst}
use resolix.Common.{
  ◌≢◌, ℕ, ◌+◌, ◌≤◌, ◌<◌, ◌≡◌, ◌⊎◌, inl, inr, refl, ap, ◌∙◌, Bool, true, false, Bool-cases, Option,
  none, some, List, [], ◌∷◌, All, arith, leb, ◌==◌, ==_iff, ==_refl, nat_comparable, if◌then◌else◌,
  if_intro, length, last?, init_of, find, store, without, find-without, find-init_of, ℤ, not_pos,
}
use resolix.Cache.Entry.{CacheKey, CacheEntry, key_comparable, remaining_ttl}
use resolix.Cache.Store.{
  Cache, new_cache, get, get_at, get_found, get_stale, get_stale_at, serve, count_miss,
  mark_expired, expire, set, set_at, push_front, evict, evict_at, clear, reconfigure, invalidate,
  sweep,
}
use resolix.Cache.Run.{
  Call, lookup, lookup_stale, insert, clear_all, configure, remove, step, run, run-IsValid,
}
use resolix.Cache.Eviction.{victim, victim_at, last_key, is_key, find-set}

abbrev when_found : CacheKey → Option (CacheEntry × ℕ) → Option CacheKey
when_found k none = none
when_found k (some r) = some k

-- The key that a call uses: one that is inserted, or looked up and found alive.
abbrev pub used_by : Cache → Call → Option CacheKey
used_by c (lookup k now) = when_found k (get c k now).1
used_by c (lookup_stale k now) = none
used_by c (insert k e) = some k
used_by c clear_all = none
used_by c (configure n lo hi b) = none
used_by c (remove p) = none

abbrev pub stamp : Option CacheKey → ℕ → (CacheKey → ℕ) → CacheKey → ℕ
stamp none n s j = s j
stamp (some k) n s j = if k == j then n else s j

-- The number of the last call that used a key, the first call having this number.
abbrev pub last_use : Cache → ℕ → List Call → (CacheKey → ℕ) → CacheKey → ℕ
last_use c n [] s = s
last_use c n (x ∷ calls) s = last_use (step c x) (n + 1) calls (stamp (used_by c x) n s)

-- The list is in the order of use, all before call `b`.
Recent : ℕ → (CacheKey → ℕ) → List (CacheKey × CacheEntry) → Type 0
Recent b s [] = Unit
Recent b s (x ∷ m) = (s x.0 < b) × Recent (s x.0) s m

abbrev key_or : CacheKey → Option (CacheKey × CacheEntry) → CacheKey
key_or v none = v
key_or v (some x) = x.0

is_apart : {e : CacheEntry} → some e ≢ none
is_apart h = cc

module _ (s : CacheKey → ℕ) where
  widen-Recent : (b d : ℕ) (m : List (CacheKey × CacheEntry)) → b ≤ d → Recent b s m → Recent d s m
  unfolding Recent
  widen-Recent b d [] h r = tt
  widen-Recent b d (x ∷ m) h r = (omega (arith, h, r.0), r.1)

  without-Recent :
      (b : ℕ) (k : CacheKey) (m : List (CacheKey × CacheEntry))
      → Recent b s m
      → Recent b s (without k m)
  unfolding Recent without
  without-Recent b k [] r = tt
  without-Recent b k (x ∷ m) r =
      let rest = without-Recent (s x.0) k m r.1 in
      if_intro (Recent b s) (x.0 == k)
        (λ _. widen-Recent (s x.0) b (without k m) (omega (arith, r.0)) rest) (λ _. (r.0, rest))

  init_of-Recent :
      (b : ℕ) (m : List (CacheKey × CacheEntry)) → Recent b s m → Recent b s (init_of m)
  unfolding Recent
  init_of-Recent b [] r = tt
  init_of-Recent b (x ∷ []) r = tt
  init_of-Recent b (x ∷ y ∷ m) r = (r.0, init_of-Recent (s x.0) (y ∷ m) r.1)

  sweep-Recent :
      (b : ℕ) (p : CacheKey → Bool) (m : List (CacheKey × CacheEntry))
      → Recent b s m
      → Recent b s (sweep p m).0
  unfolding Recent sweep
  sweep-Recent b p [] r = tt
  sweep-Recent b p (x ∷ m) r =
      let rest = sweep-Recent (s x.0) p m r.1 in
      if_intro (λ (q : List (CacheKey × CacheEntry) × ℕ). Recent b s q.0) (p x.0)
        (λ _. widen-Recent (s x.0) b (sweep p m).0 (omega (arith, r.0)) rest) (λ _. (r.0, rest))

  store-Recent :
      (b : ℕ) (k : CacheKey) (e w : CacheEntry) (m : List (CacheKey × CacheEntry))
      → find k m ≡ some w
      → Recent b s m
      → Recent b s (store k e m)
  unfolding Recent store find
  store-Recent b k e w [] h r = cc
  store-Recent b k e w (x ∷ m) h r = elim (Bool-cases (x.0 == k)) [
    | inl same ↦ rw same (subst (λ j. (s j < b) × Recent (s j) s m) ((==_iff x.0 k).0 same) r)
    | inr other ↦ rw other (r.0, store-Recent (s x.0) k e w m (rw other at h) r.1)
  ]

  stamp-Recent :
      (b n : ℕ) (k : CacheKey) (m : List (CacheKey × CacheEntry))
      → find k m ≡ none
      → Recent b s m
      → Recent b (stamp (some k) n s) m
  unfolding Recent find
  stamp-Recent b n k [] h r = tt
  stamp-Recent b n k (x ∷ m) h r = elim (Bool-cases (x.0 == k)) [
    | inl same ↦ absurd (is_apart (rw same at h))
    | inr other ↦
        let apart : (k == x.0) ≡ false = ground (arith, ==_iff k x.0, ==_iff x.0 k, other) in
        rw apart (r.0, stamp-Recent (s x.0) n k m (rw other at h) r.1)
  ]

  -- The last key of the list was used longest ago.
  last-lt :
      (b : ℕ) (v : CacheKey) (w : CacheEntry) (m : List (CacheKey × CacheEntry))
      → last? m ≡ some (v, w)
      → Recent b s m
      → s v < b
  unfolding Recent
  last-lt b v w [] h r = cc
  last-lt b v w (x ∷ []) h r = subst (λ j. s j < b) (ap (key_or v) h) r.0
  last-lt b v w (x ∷ y ∷ m) h r = omega (arith, r.0, last-lt (s x.0) v w (y ∷ m) h r.1)

  last-oldest :
      (b : ℕ) (v : CacheKey) (w : CacheEntry) (m : List (CacheKey × CacheEntry))
      → last? m ≡ some (v, w)
      → Recent b s m
      → All (λ x. (x.0 ≡ v) ⊎ (s v < s x.0)) m
  unfolding Recent
  last-oldest b v w [] h r = tt
  last-oldest b v w (x ∷ []) h r = (inl (ap (key_or v) h), tt)
  last-oldest b v w (x ∷ y ∷ m) h r =
      (inr (last-lt (s x.0) v w (y ∷ m) h r.1), last-oldest (s x.0) v w (y ∷ m) h r.1)

  -- The key that is displaced, if there is one, was used before all others.
  abbrev pub IsOldest : Option CacheKey → List (CacheKey × CacheEntry) → Type 0
  IsOldest none m = Unit
  IsOldest (some v) m = All (λ x. (x.0 ≡ v) ⊎ (s v < s x.0)) m

  last_key-IsOldest :
      (b : ℕ) (m : List (CacheKey × CacheEntry)) (o : Option (CacheKey × CacheEntry))
      → last? m ≡ o
      → Recent b s m
      → IsOldest (last_key o) m
  last_key-IsOldest b m none h r = tt
  last_key-IsOldest b m (some (v, w)) h r = last-oldest b v w m h r

  victim-IsOldest :
      (b : ℕ) (c : Cache) (o : Option CacheEntry) → Recent b s c.ll → IsOldest (victim_at c o) c.ll
  victim-IsOldest b c (some old) r = tt
  victim-IsOldest b c none r =
      if_intro (λ v. IsOldest v c.ll) (leb c.cap (length c.ll))
        (λ _. last_key-IsOldest b c.ll (last? c.ll) refl r) (λ _. tt)

-- A key in front that is used now.
front-Recent :
    (n : ℕ) (s : CacheKey → ℕ) (k : CacheKey) (e : CacheEntry) (m : List (CacheKey × CacheEntry))
    → find k m ≡ none
    → Recent n s m
    → Recent (n + 1) (stamp (some k) n s) ((k, e) ∷ m)
unfolding Recent
front-Recent n s k e m h r = rw (==_refl k) (omega arith, stamp-Recent s n n k m h r)

without-none : (k : CacheKey) (m : List (CacheKey × CacheEntry)) → find k (without k m) ≡ none
without-none k m = find-without k k m ∙ rw (==_refl k) refl

evict_at-Recent :
    (n : ℕ) (s : CacheKey → ℕ) (c : Cache) (o : Option (CacheKey × CacheEntry))
    → Recent n s c.ll
    → Recent n s (evict_at c o).ll
unfolding evict_at
evict_at-Recent n s c none r = r
evict_at-Recent n s c (some (k, w)) r = init_of-Recent s n c.ll r

evict_at-none :
    (k : CacheKey) (c : Cache) (o : Option (CacheKey × CacheEntry))
    → find k c.ll ≡ none
    → find k (evict_at c o).ll ≡ none
unfolding evict_at
evict_at-none k c none h = h
evict_at-none k c (some (j, w)) h = find-init_of k c.ll h

set_at-Recent :
    (n : ℕ) (s : CacheKey → ℕ) (c : Cache) (k : CacheKey) (e : CacheEntry) (o : Option CacheEntry)
    → find k c.ll ≡ o
    → Recent n s c.ll
    → Recent (n + 1) (stamp (some k) n s) (set_at c k e o).ll
unfolding set_at push_front evict
set_at-Recent n s c k e (some old) h r =
    front-Recent n s k e (without k c.ll) (without-none k c.ll) (without-Recent s n k c.ll r)
set_at-Recent n s c k e none h r =
    if_intro (λ (d : Cache). Recent (n + 1) (stamp (some k) n s) ((k, e) ∷ d.ll))
      (leb c.cap (length c.ll))
      (λ _.
        front-Recent n s k e _ (evict_at-none k _ (last? c.ll) h)
          (evict_at-Recent n s _ (last? c.ll) r))
      (λ _. front-Recent n s k e c.ll h r)

nil-Recent : (n : ℕ) (s : CacheKey → ℕ) → Recent n s []
unfolding Recent
nil-Recent n s = tt

-- A call that uses nothing.
later-Recent :
    (n : ℕ) (s : CacheKey → ℕ) (m : List (CacheKey × CacheEntry))
    → Recent n s m
    → Recent (n + 1) s m
later-Recent n s m r = widen-Recent s n (n + 1) m (omega arith) r

marked-Recent :
    (n : ℕ) (s : CacheKey → ℕ) (c : Cache) (k : CacheKey) (e : CacheEntry)
    → find k c.ll ≡ some e
    → Recent n s c.ll
    → Recent n s (mark_expired c k e).ll
unfolding mark_expired
marked-Recent n s c k e h r =
    if_intro (λ (d : Cache). Recent n s d.ll) e.expired_observed (λ _. r)
      (λ _. store-Recent s n k (record e { expired_observed = true }) e c.ll h r)

expire-Recent :
    (n : ℕ) (s : CacheKey → ℕ) (c : Cache) (k : CacheKey) (e : CacheEntry)
    → find k c.ll ≡ some e
    → Recent n s c.ll
    → Recent n s (expire c k e).ll
unfolding expire
expire-Recent n s c k e h r =
    let m = marked-Recent n s c k e h r in
    if_intro (λ (d : Cache). Recent n s d.ll) c.optimistic (λ _. m)
      (λ _. without-Recent s n k (mark_expired c k e).ll m)

get_at-Recent :
    (n : ℕ) (s : CacheKey → ℕ) (c : Cache) (k : CacheKey) (now : ℕ) (o : Option CacheEntry)
    → find k c.ll ≡ o
    → Recent n s c.ll
    → Recent (n + 1) (stamp (when_found k (get_at c k now o).1) n s) (get_at c k now o).0.ll
unfolding get_at get_found serve count_miss
get_at-Recent n s c k now none h r = later-Recent n s c.ll r
get_at-Recent n s c k now (some e) h r =
    if_intro
      (λ (g : Cache × Option (CacheEntry × ℕ)).
        Recent (n + 1) (stamp (when_found k g.1) n s) g.0.ll)
      (not_pos (remaining_ttl e now))
      (λ _. later-Recent n s (expire c k e).ll (expire-Recent n s c k e h r))
      (λ _.
        front-Recent n s k _ (without k c.ll) (without-none k c.ll) (without-Recent s n k c.ll r))

get_stale_at-ll : (c : Cache) (now : ℕ) (o : Option CacheEntry) → (get_stale_at c now o).0.ll ≡ c.ll
unfolding get_stale_at
get_stale_at-ll c now none = refl
get_stale_at-ll c now (some e) = refl

step-Recent :
    (n : ℕ) (s : CacheKey → ℕ) (c : Cache) (x : Call)
    → Recent n s c.ll
    → Recent (n + 1) (stamp (used_by c x) n s) (step c x).ll
unfolding step get get_stale set clear reconfigure invalidate
step-Recent n s c (lookup k now) r = get_at-Recent n s c k now (find k c.ll) refl r
step-Recent n s c (lookup_stale k now) r =
    rw (get_stale_at-ll c now (find k c.ll)) (later-Recent n s c.ll r)
step-Recent n s c (insert k e) r = set_at-Recent n s c k e (find k c.ll) refl r
step-Recent n s c clear_all r = nil-Recent (n + 1) s
step-Recent n s c (configure cap lo hi b) r = nil-Recent (n + 1) s
step-Recent n s c (remove p) r = later-Recent n s (sweep p c.ll).0 (sweep-Recent s n p c.ll r)

run-IsOldest :
    (calls : List Call) (n : ℕ) (s : CacheKey → ℕ) (c : Cache) (k : CacheKey)
    → Recent n s c.ll
    → IsOldest (last_use c n calls s) (victim (run c calls) k) (run c calls).ll
unfolding run
run-IsOldest [] n s c k r = victim-IsOldest s n c (find k c.ll) r
run-IsOldest (x ∷ calls) n s c k r =
    run-IsOldest calls (n + 1) (stamp (used_by c x) n s) (step c x) k (step-Recent n s c x r)

-- After any calls on a new cache, whatever `set k e` then displaces was used longest ago: every
-- other key that is held has been inserted, or looked up and found alive, by a later call. After
-- it `k` is found with `e`, the displaced key, if there is one, is not found, and every other key
-- is found exactly as before.
pub set-IsOldest :
    (capacity : ℤ) (lo hi : ℕ) (calls : List Call) (k j : CacheKey) (e : CacheEntry)
    → let c = run (new_cache capacity lo hi) calls in
      IsOldest (last_use (new_cache capacity lo hi) 0 calls (λ i. 0)) (victim c k) c.ll
      × (find j (set c k e).ll
          ≡ (if k == j then some e else if is_key (victim c k) j then none else find j c.ll))
unfolding new_cache
set-IsOldest capacity lo hi calls k j e =
    let c = run (new_cache capacity lo hi) calls in
    (
      run-IsOldest calls 0 (λ i. 0) (new_cache capacity lo hi) k (nil-Recent 0 (λ i. 0)),
      find-set c k j e (run-IsValid capacity lo hi calls),
    )
