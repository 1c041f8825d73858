-- ===== src/Upstream/Message.antt =====
-- The parts of a DNS message that the pool reads and writes, the client subnet that it attaches
-- and the addresses that it synthesizes (webgui/internal/upstream/pool.go, withECS, hasAAAA and
-- synthesizeDNS64).
use resolix.Common.{
  ℕ, Bool, true, false, Option, none, some, List, [], ◌∷◌, ◌++◌, take, ◌==◌, nat_comparable,
  list_comparable, if◌then◌else◌, Text,
}

-- An option of EDNS0: a client subnet with its family, length and address, or another one.
pub data EdnsOption : Type 0 where
  subnet : ℕ → ℕ → List ℕ → EdnsOption
  other_option : ℕ → EdnsOption

-- A record with its name, TTL and address, an OPT record with the UDP size, the DO bit and its
-- options, or one of another type.
pub data Rr : Type 0 where
  a : Text → ℕ → List ℕ → Rr
  aaaa : Text → ℕ → List ℕ → Rr
  opt : ℕ → Bool → List EdnsOption → Rr
  other : ℕ → Text → Rr

pub record Msg : Type 0 where
  pub question : List (Text × ℕ)
  pub rcode : ℕ
  pub answer : List Rr
  pub extra : List Rr

pub record Ecs : Type 0 where
  pub ip : List ℕ
  pub bits : ℕ
  pub family : ℕ

abbrev pub type_a : ℕ
type_a = 1

abbrev pub type_aaaa : ℕ
type_aaaa = 28

abbrev pub without_opt : List Rr → List Rr
without_opt [] = []
without_opt (opt size do_bit options ∷ rrs) = without_opt rrs
without_opt (a name ttl ip ∷ rrs) = a name ttl ip ∷ without_opt rrs
without_opt (aaaa name ttl ip ∷ rrs) = aaaa name ttl ip ∷ without_opt rrs
without_opt (other rrtype name ∷ rrs) = other rrtype name ∷ without_opt rrs

-- withECS; the DO bit is that of the message's IsEdns0.
abbrev pub with_ecs : Option Ecs → (Msg → Bool) → Msg → Msg
with_ecs none do_bit m = m
with_ecs (some e) do_bit m = record m {
  extra = without_opt m.extra ++ opt 1232 (do_bit m) (subnet e.family e.bits e.ip ∷ []) ∷ [];
}

-- hasAAAA
abbrev pub has_aaaa : List Rr → Bool
has_aaaa [] = false
has_aaaa (aaaa name ttl ip ∷ rrs) = true
has_aaaa (a name ttl ip ∷ rrs) = has_aaaa rrs
has_aaaa (opt size do_bit options ∷ rrs) = has_aaaa rrs
has_aaaa (other rrtype name ∷ rrs) = has_aaaa rrs

-- A prefix of DNS64: the length of its mask, and its sixteen bytes.
abbrev pub Prefix : Type 0
Prefix = ℕ × List ℕ

-- The addresses of one A record under all prefixes.
abbrev pub under_prefixes : Text → ℕ → List ℕ → List Prefix → List Rr
under_prefixes name ttl ip [] = []
under_prefixes name ttl ip ((ones, bytes) ∷ prefixes) =
    let rest = under_prefixes name ttl ip prefixes in
    if ones == 96 then aaaa name ttl (take 12 bytes ++ ip) ∷ rest else rest

abbrev pub synthesized : List Prefix → Text → List Rr → List Rr
synthesized prefixes name [] = []
synthesized prefixes name (a owner ttl ip ∷ rrs) =
    under_prefixes name ttl ip prefixes ++ synthesized prefixes name rrs
synthesized prefixes name (aaaa owner ttl ip ∷ rrs) = synthesized prefixes name rrs
synthesized prefixes name (opt size do_bit options ∷ rrs) = synthesized prefixes name rrs
synthesized prefixes name (other rrtype owner ∷ rrs) = synthesized prefixes name rrs

-- sub.SetQuestion(name, dns.TypeA)
abbrev pub a_question : Text → Msg
a_question name = record { question = (name, type_a) ∷ []; rcode = 0; answer = []; extra = [] }
