-- ===== src/Cache/Entry.antt =====
-- Cache keys, cached responses and their lifetimes (webgui/internal/dnsserver/cache.go).
-- A resource record of the DNS library is the part that this code reads: its owner, its TTL, its
-- type and, of an SOA record, the MINIMUM field. Times are nanoseconds.
use resolix.Common.{
  ℕ, ◌+◌, ◌-◌, ◌/◌, ◌≡◌, ◌↔◌, Bool, true, ◌&&◌, Option, none, some, List, [], ◌∷◌, map, arith, ltb,
  leb, ◌==◌, Comparable, same_bool, same_bool_iff, same_list_iff, nat_comparable, list_comparable,
  if◌then◌else◌, Text, ℤ, pos, negsuc, sub_ℕ,
}

pub record CacheKey : Type 0 where
  pub name : Text
  pub qtype : ℕ
  pub qclass : ℕ
  pub group : Text
  pub do_bit : Bool
  pub cd : Bool
  pub ecs : Text
  pub policy : Text
  pub route : Text

unfoldable pub same_key : CacheKey → CacheKey → Bool
same_key a b =
    a.name == b.name
    && a.qtype == b.qtype
    && a.qclass == b.qclass
    && a.group == b.group
    && same_bool a.do_bit b.do_bit
    && same_bool a.cd b.cd
    && a.ecs == b.ecs
    && a.policy == b.policy
    && a.route == b.route

pub same_key_iff : (a b : CacheKey) → (same_key a b ≡ true) ↔ (a ≡ b)
unfolding same_key
same_key_iff a b = ground (
  arith,
  same_list_iff a.name b.name,
  same_list_iff a.group b.group,
  same_bool_iff a.do_bit b.do_bit,
  same_bool_iff a.cd b.cd,
  same_list_iff a.ecs b.ecs,
  same_list_iff a.policy b.policy,
  same_list_iff a.route b.route,
)

instance abbrev pub key_comparable : Comparable CacheKey
key_comparable = record { same = same_key; same_iff = same_key_iff }

pub data RrType : Type 0 where
  address : RrType
  soa : ℕ → RrType
  opt : RrType
  other : RrType

pub record Rr : Type 0 where
  pub name : Text
  pub ttl : ℕ
  pub kind : RrType

pub record CacheEntry : Type 0 where
  pub answers : List Rr
  pub authority : List Rr
  pub rcode : ℕ
  pub authenticated_data : Bool
  pub stored_at : ℕ
  pub ttl : ℕ
  pub hits : ℕ
  pub negative : Bool
  pub negative_soa : Text
  pub servfail : Bool
  pub prefetched : Bool
  pub expired_observed : Bool

abbrev pub second : ℕ
second = 1000000000

-- The age in whole seconds is rounded towards zero, also below zero.
unfoldable pub remaining_ttl : CacheEntry → ℕ → ℤ
remaining_ttl e now =
    if leb e.stored_at now
    then sub_ℕ e.ttl ((now - e.stored_at) / second)
    else pos (e.ttl + (e.stored_at - now) / second)

abbrev pub max_u32 : ℕ
max_u32 = 4294967295

-- The clamp of a remaining TTL into a uint32.
unfoldable pub to_u32 : ℤ → ℕ
to_u32 (pos n) = if ltb max_u32 n then max_u32 else n
to_u32 (negsuc n) = 0

-- The loop of minAnswerTTL, from the second record on.
unfoldable pub min_ttl_from : ℕ → List Rr → ℕ
min_ttl_from minimum [] = minimum
min_ttl_from minimum (r ∷ rrs) = min_ttl_from (if ltb r.ttl minimum then r.ttl else minimum) rrs

unfoldable pub min_answer_ttl : List Rr → ℕ
unfolding min_ttl_from
min_answer_ttl [] = 0
min_answer_ttl (r ∷ rrs) = min_ttl_from r.ttl rrs

-- One step of the loop of soaMetadata: the TTL and the owner, if the record is an SOA.
unfoldable pub soa_of : Rr → Option (ℕ × Text)
soa_of r = elim r.kind [
  | soa minttl ↦ some (if ltb minttl r.ttl then minttl else r.ttl, r.name)
  | _ ↦ none
]

unfoldable pub soa_metadata : List Rr → Option (ℕ × Text)
unfolding soa_of
soa_metadata [] = none
soa_metadata (r ∷ rrs) = elim (soa_of r) [ none ↦ soa_metadata rrs | some m ↦ some m ]

-- Copies with the TTL replaced.
unfoldable pub with_ttl : List Rr → ℕ → List Rr
with_ttl rrs t = map (λ (r : Rr). record r { ttl = t }) rrs
