-- ===== src/Pipeline/Lifetimes.antt =====
-- The lifetimes of what the server stores (webgui/internal/dnsserver/cache_pipeline.go).
use resolix.Common.{
  ℕ, ◌+◌, ◌-◌, ◌≤◌, ◌≡◌, Bool, true, Option, none, some, arith, leb, nat_comparable, Text, not_pos,
}
use resolix.Cache.Entry.{CacheEntry, remaining_ttl, second, soa_metadata}
use resolix.Cache.Store.{Cache}
use resolix.Pipeline.Storing.{Msg, blank_entry, negative_entry, entry_of}

negative_entry-plain :
    (c : Cache) (b : CacheEntry) (o : Option (ℕ × Text)) (e : CacheEntry)
    → negative_entry c b o ≡ some e
    → e.servfail ≡ b.servfail
unfolding negative_entry
negative_entry-plain c b none e h = cc
negative_entry-plain c b (some (ttl, origin)) e h = ground arith

entry_of-servfail :
    (c : Cache) (ttl : ℕ) (m : Msg) (p : Bool) (now : ℕ) (e : CacheEntry)
    → entry_of c ttl m p now ≡ some e
    → e.servfail ≡ true
    → (e.ttl ≡ 1) × (e.stored_at ≡ now + ttl - second)
unfolding entry_of
entry_of-servfail c ttl m p now e h s =
    ground (arith, negative_entry-plain c (blank_entry m p now) (soa_metadata m.ns) e)

expires_after :
    (e : CacheEntry) (now ttl later : ℕ)
    → second ≤ now + ttl
    → e.ttl ≡ 1
    → e.stored_at ≡ now + ttl - second
    → not_pos (remaining_ttl e (now + later)) ≡ leb ttl later
unfolding remaining_ttl
expires_after e now ttl later h t s = ground arith

-- A cached failure is backdated so that it lives for the configured time to the nanosecond: read
-- `later` nanoseconds after it was stored, it is expired exactly if `later` has reached the
-- configured time. The clock is more than a second past its origin.
pub servfail-lifetime :
    (c : Cache) (ttl : ℕ) (m : Msg) (p : Bool) (now later : ℕ) (e : CacheEntry)
    → second ≤ now
    → entry_of c ttl m p now ≡ some e
    → e.servfail ≡ true
    → not_pos (remaining_ttl e (now + later)) ≡ leb ttl later
servfail-lifetime c ttl m p now later e h made failed =
    let (t, s) = entry_of-servfail c ttl m p now e made failed in
    expires_after e now ttl later (omega arith) t s

negative_entry-response :
    (c : Cache) (b : CacheEntry) (o : Option (ℕ × Text)) (e : CacheEntry)
    → negative_entry c b o ≡ some e
    → (e.answers ≡ b.answers)
      × (e.authority ≡ b.authority)
      × (e.rcode ≡ b.rcode)
      × (e.authenticated_data ≡ b.authenticated_data)
unfolding negative_entry
negative_entry-response c b none e h = cc
negative_entry-response c b (some (ttl, origin)) e h = ground arith

pub entry_of-response :
    (c : Cache) (ttl : ℕ) (m : Msg) (p : Bool) (now : ℕ) (e : CacheEntry)
    → entry_of c ttl m p now ≡ some e
    → (e.answers ≡ m.answer)
      × (e.authority ≡ m.ns)
      × (e.rcode ≡ m.rcode)
      × (e.authenticated_data ≡ m.authenticated_data)
unfolding entry_of
entry_of-response c ttl m p now e h =
    ground (arith, negative_entry-response c (blank_entry m p now) (soa_metadata m.ns) e)
