-- ===== src/Pipeline/Flights.antt =====
-- Concurrent misses for one key share a fetch (webgui/internal/dnsserver/cache_pipeline.go,
-- beginMissFlight and completeMissFlight). Each is one step under its mutex.
use resolix.Common.{
  ◌&&◌, if_intro, ℕ, ◌+◌, ◌-◌, ◌≤◌, ◌<◌, ◌≡◌, refl, Bool, true, false, Option, none, some, List, [],
  ◌∷◌, arith, leb, ◌==◌, ==_iff, Bool-cases, inl, inr, if◌then◌else◌, length, find, store, without,
  find-store, find-without, Unique, store-Unique, without-Unique, length-without_le, length-store,
}
use resolix.Cache.Entry.{CacheKey, key_comparable}
use resolix.Pipeline.Resolve.{Role, refused, joined, leading}

pub record Flight : Type 0 where
  pub waiters : ℕ

abbrev pub Flights : Type 0
Flights = List (CacheKey × Flight)

abbrev pub max_miss_flights : ℕ
max_miss_flights = 1024

unfoldable pub begin_at : Flights → CacheKey → Option Flight → Flights × Role
begin_at fs key (some f) = (store key (record f { waiters = f.waiters + 1 }) fs, joined)
begin_at fs key none =
    if leb max_miss_flights (length fs)
    then (fs, refused)
    else ((key, record { waiters = 0 }) ∷ fs, leading)

-- beginMissFlight
unfoldable pub begin_miss_flight : Flights → CacheKey → Flights × Role
begin_miss_flight fs key = begin_at fs key (find key fs)

-- completeMissFlight: the waiters of the flight are released with the result.
unfoldable pub complete_miss_flight : Flights → CacheKey → Flights
complete_miss_flight fs key = without key fs

-- The table, and the keys that some caller is fetching at the moment.
pub record System : Type 0 where
  pub flights : Flights
  pub fetching : List CacheKey

abbrev pub count : CacheKey → List CacheKey → ℕ
count k [] = 0
count k (j ∷ ks) = if j == k then count k ks + 1 else count k ks

abbrev pub drop_one : CacheKey → List CacheKey → List CacheKey
drop_one k [] = []
drop_one k (j ∷ ks) = if j == k then ks else j ∷ drop_one k ks

abbrev pub leads : Role → Bool
leads refused = false
leads joined = false
leads leading = true

-- A caller begins and leads, begins and does not lead, or completes its fetch.
pub data Step (s : System) : System → Type 0 where
  lead :
      (k : CacheKey)
      → leads (begin_miss_flight s.flights k).1 ≡ true
      → Step s (record { flights = (begin_miss_flight s.flights k).0; fetching = k ∷ s.fetching })
  follow :
      (k : CacheKey)
      → leads (begin_miss_flight s.flights k).1 ≡ false
      → Step s (record { flights = (begin_miss_flight s.flights k).0; fetching = s.fetching })
  finish :
      (k : CacheKey)
      → 0 < count k s.fetching
      → Step s
          (record { flights = complete_miss_flight s.flights k; fetching = drop_one k s.fetching })

pub data Reaches (from : System) : System → Type 0 where
  begins : Reaches from from
  continues : {mid last : System} → Reaches from mid → Step mid last → Reaches from last

abbrev pub present : Option Flight → ℕ
present none = 0
present (some f) = 1

pub record IsSingle (s : System) : Type 0 where
  pub bounded : length s.flights ≤ max_miss_flights
  pub unique : Unique s.flights
  pub agrees : (k : CacheKey) → count k s.fetching ≡ present (find k s.flights)

begin_at-table :
    (fs : Flights) (k : CacheKey) (o : Option Flight)
    → find k fs ≡ o
    → length fs ≤ max_miss_flights
    → Unique fs
    → (length (begin_at fs k o).0 ≤ max_miss_flights) × Unique (begin_at fs k o).0
unfolding begin_at
begin_at-table fs k (some f) h b u = (
  omega (arith, length-store k (record f { waiters = f.waiters + 1 }) f fs h),
  store-Unique k _ fs u,
)
begin_at-table fs k none h b u =
    if_intro (λ (r : Flights × Role). (length r.0 ≤ max_miss_flights) × Unique r.0)
      (leb max_miss_flights (length fs)) (λ _. (b, u)) (λ room. (ground arith, (h, u)))

begin_at-find :
    (fs : Flights) (k j : CacheKey) (o : Option Flight)
    → find k fs ≡ o
    → present (find j (begin_at fs k o).0)
      ≡ (if leads (begin_at fs k o).1 && k == j then 1 else present (find j fs))
unfolding begin_at find
begin_at-find fs k j (some f) h =
    ground (arith, find-store k j (record f { waiters = f.waiters + 1 }) fs, ==_iff k j)
begin_at-find fs k j none h = elim (Bool-cases (leb max_miss_flights (length fs))) [
  | inl full ↦ rw full refl
  | inr room ↦ rw room (ground arith)
]

begin_at-fresh :
    (fs : Flights) (k : CacheKey) (o : Option Flight)
    → leads (begin_at fs k o).1 ≡ true
    → present o ≡ 0
unfolding begin_at
begin_at-fresh fs k (some f) h = cc
begin_at-fresh fs k none h = refl

begin-find :
    (fs : Flights) (k j : CacheKey)
    → present (find j (begin_miss_flight fs k).0)
      ≡ (if leads (begin_miss_flight fs k).1 && k == j then 1 else present (find j fs))
unfolding begin_miss_flight
begin-find fs k j = begin_at-find fs k j (find k fs) refl

begin-fresh :
    (fs : Flights) (k : CacheKey)
    → leads (begin_miss_flight fs k).1 ≡ true
    → present (find k fs) ≡ 0
unfolding begin_miss_flight
begin-fresh fs k h = begin_at-fresh fs k (find k fs) h

begin-table :
    (fs : Flights) (k : CacheKey)
    → length fs ≤ max_miss_flights
    → Unique fs
    → (length (begin_miss_flight fs k).0 ≤ max_miss_flights) × Unique (begin_miss_flight fs k).0
unfolding begin_miss_flight
begin-table fs k b u = begin_at-table fs k (find k fs) refl b u

count-drop_one :
    (k j : CacheKey) (ks : List CacheKey)
    → count j (drop_one k ks) ≡ (if k == j then count j ks - 1 else count j ks)
count-drop_one k j [] = ground arith
count-drop_one k j (i ∷ ks) =
    ground (arith, count-drop_one k j ks, ==_iff i k, ==_iff i j, ==_iff k j)

Step-IsSingle : {s t : System} → Step s t → IsSingle s → IsSingle t
unfolding complete_miss_flight
Step-IsSingle {s} (lead k h) v =
    let (b, u) = begin-table s.flights k v.bounded v.unique in
    record {
      bounded = b;
      unique = u;
      agrees = λ j. ground (
        arith,
        begin-find s.flights k j,
        begin-fresh s.flights k h,
        v.agrees j,
        v.agrees k,
        ==_iff k j,
      );
    }
Step-IsSingle {s} (follow k h) v =
    let (b, u) = begin-table s.flights k v.bounded v.unique in
    record {
      bounded = b;
      unique = u;
      agrees = λ j. ground (arith, begin-find s.flights k j, v.agrees j);
    }
Step-IsSingle {s} (finish k h) v = record {
  bounded = omega (arith, length-without_le k s.flights, v.bounded);
  unique = without-Unique k s.flights v.unique;
  agrees = λ j. ground (
    arith,
    count-drop_one k j s.fetching,
    find-without k j s.flights,
    v.agrees j,
    v.agrees k,
    ==_iff k j,
  );
}

Reaches-keeps : {s t : System} → IsSingle s → Reaches s t → IsSingle t
Reaches-keeps v begins = v
Reaches-keeps v (continues r st) = Step-IsSingle st (Reaches-keeps v r)

abbrev pub idle : System
idle = record { flights = []; fetching = [] }

idle-IsSingle : IsSingle idle
unfolding find
idle-IsSingle = record { bounded = omega arith; unique = tt; agrees = λ k. refl }

-- However callers of beginMissFlight begin and complete, from the empty table: the table stays
-- within its bound with no key twice, and of these callers one is the leader for a key exactly if
-- the key stands in the table, and none otherwise, so no two of them lead for one key at once.
pub Reaches-IsSingle : {t : System} → Reaches idle t → IsSingle t
Reaches-IsSingle r = Reaches-keeps idle-IsSingle r
