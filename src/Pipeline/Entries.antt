-- ===== src/Pipeline/Entries.antt =====
-- Which entry the server makes of a response (webgui/internal/dnsserver/cache_pipeline.go,
-- storeInCacheWithSource, and minAnswerTTL and soaMetadata).
use resolix.Common.{
  ◌≢◌, ◌⊎◌, ℕ, ◌+◌, ◌-◌, ◌≤◌, ◌<◌, ◌≡◌, min, max, Bool, true, false, Option, none, some, List, [],
  ◌∷◌, ◌++◌, All, Member, nat_comparable, Text,
}
use resolix.Cache.Entry.{CacheEntry, Rr, soa, second}
use resolix.Cache.Store.{Cache}
use resolix.Pipeline.Storing.{Msg}

-- The least of the TTLs of some records.
abbrev pub IsLeast : ℕ → List Rr → Type 0
IsLeast t rrs = All (λ r. t ≤ r.ttl) rrs × ((r : Rr) × Member r rrs × (r.ttl ≡ t))

abbrev pub NoSoa : List Rr → Type 0
NoSoa rrs = All (λ r. (n : ℕ) → r.kind ≢ soa n) rrs

-- The first SOA of some records has this owner, and its MINIMUM or its TTL, whichever is less, is
-- this number.
abbrev pub IsFirstSoa : ℕ → Text → List Rr → Type 0
IsFirstSoa t origin rrs =
    (before : List Rr) × (r : Rr) × (after : List Rr) × (n : ℕ) × (rrs ≡ before ++ r ∷ after)
    × NoSoa before
    × (r.kind ≡ soa n)
    × (t ≡ min n r.ttl)
    × (origin ≡ r.name)

abbrev pub IsNegative : Msg → Type 0
IsNegative m = (m.rcode ≡ 3) ⊎ ((m.rcode ≡ 0) × (m.answer ≡ []))

-- What an entry has of its response.
pub record IsOf (m : Msg) (prefetched : Bool) (e : CacheEntry) : Type 0 where
  pub sections : (e.answers ≡ m.answer) × (e.authority ≡ m.ns)
  pub rcode : e.rcode ≡ m.rcode
  pub authentic : e.authenticated_data ≡ m.authenticated_data
  pub unread : (e.hits ≡ 0) × (e.expired_observed ≡ false) × (e.prefetched ≡ prefetched)

pub record IsPositive (c : Cache) (m : Msg) (now : ℕ) (e : CacheEntry) : Type 0 where
  pub answered : (m.rcode ≡ 0) × (m.answer ≢ [])
  pub lifetime :
      (t : ℕ) × IsLeast t m.answer × (e.ttl ≡ min c.max_ttl (max c.min_ttl t)) × (e.stored_at ≡ now)
  pub kind : (e.negative ≡ false) × (e.servfail ≡ false)

pub record IsDenial (c : Cache) (m : Msg) (now : ℕ) (e : CacheEntry) : Type 0 where
  pub denied : IsNegative m
  pub lifetime :
      (t : ℕ) × IsFirstSoa t e.negative_soa m.ns
      × (0 < t)
      × (e.ttl ≡ min c.max_ttl t)
      × (e.stored_at ≡ now)
  pub kind : (e.negative ≡ true) × (e.servfail ≡ false)

pub record IsFailure (servfail_ttl : ℕ) (m : Msg) (now : ℕ) (e : CacheEntry) : Type 0 where
  pub failed : (m.rcode ≡ 2) × (0 < servfail_ttl)
  pub lifetime : (e.ttl ≡ 1) × (e.stored_at ≡ now + servfail_ttl - second)
  pub kind : (e.negative ≡ false) × (e.servfail ≡ true)

-- The response has nothing to cache.
abbrev pub IsUncached : ℕ → Msg → Type 0
IsUncached servfail_ttl m =
    (IsNegative m × (NoSoa m.ns ⊎ ((origin : Text) × IsFirstSoa 0 origin m.ns)))
    ⊎ (((m.rcode ≡ 2) × (servfail_ttl ≡ 0)) ⊎ ((m.rcode ≢ 0) × (m.rcode ≢ 2) × (m.rcode ≢ 3)))

abbrev pub IsMade : Cache → ℕ → Msg → Bool → ℕ → Option CacheEntry → Type 0
IsMade c w m p now none = IsUncached w m
IsMade c w m p now (some e) =
    IsOf m p e × (IsPositive c m now e ⊎ (IsDenial c m now e ⊎ IsFailure w m now e))

Found : List Rr → Option (ℕ × Text) → Type 0
Found rrs none = NoSoa rrs
Found rrs (some (t, origin)) = IsFirstSoa t origin rrs
