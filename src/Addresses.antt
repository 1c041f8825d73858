-- ===== src/Addresses.antt =====
-- What the code relies on of Go's package net: addresses and networks in CIDR notation. Every
-- component that looks at addresses takes it as a parameter.
use resolix.Common.{
  ℕ, ◌-◌, ◌/◌, ◌^◌, ◌≡◌, ap, ap₂, sym, ◌∙◌, Bool, true, Option, none, some, [], ◌∷◌, ◌==◌, ==_iff,
  nat_comparable, Text,
}

pub record NetPackage : Type 1 where
  pub Ip : Type 0
  pub Network : Type 0
  -- net.ParseIP, and whether To4 gives an address
  pub parse_ip : Text → Option Ip
  pub is_v4 : Ip → Bool
  -- net.ParseCIDR, its second result
  pub parse_cidr : Text → Option Network
  -- IPNet.Mask.Size, IPNet.String and IPNet.Contains
  pub mask_size : Network → ℕ
  pub network_string : Network → Text
  pub contains : Network → Ip → Bool
  -- Networks of one size that share an address are one network.
  pub contains_same :
      (m n : Network) (ip : Ip)
      → mask_size m ≡ mask_size n
      → contains m ip ≡ true
      → contains n ip ≡ true
      → network_string m ≡ network_string n

-- A network package for tests: addresses are single bytes, and a network is the number of its
-- leading bits, up to eight, with their value. "/32" and "/128" stand for all eight bits.
abbrev parse_byte : Text → Option ℕ
parse_byte [] = none
parse_byte (c ∷ []) = some c
parse_byte (c ∷ d ∷ s) = none

abbrev high : ℕ → ℕ → ℕ
high bits ip = ip / 2 ^ (8 - bits)

abbrev parse_bits : Text → Option (ℕ × ℕ)
parse_bits [] = none
parse_bits (c ∷ []) = none
parse_bits (c ∷ d ∷ []) = none
parse_bits (c ∷ d ∷ b ∷ []) = some (b - 48, high (b - 48) c)
parse_bits (c ∷ d ∷ b ∷ e ∷ s) = some (8, c)

abbrev in_bits : ℕ × ℕ → ℕ → Bool
in_bits (bits, value) ip = value == high bits ip

pub in_bits_same :
    (m n : ℕ × ℕ) (ip : ℕ)
    → m.0 ≡ n.0
    → in_bits m ip ≡ true
    → in_bits n ip ≡ true
    → m.0 ∷ m.1 ∷ [] ≡ n.0 ∷ n.1 ∷ []
in_bits_same m n ip e p q =
    ap₂ (λ b v. b ∷ v ∷ []) e
      ((==_iff m.1 (high m.0 ip)).0 p
        ∙ ap (λ b. high b ip) e
        ∙ sym ((==_iff n.1 (high n.0 ip)).0 q))

abbrev pub eight_bits : NetPackage
eight_bits = record {
  Ip = ℕ;
  Network = ℕ × ℕ;
  parse_ip = parse_byte;
  is_v4 = λ ip. true;
  parse_cidr = parse_bits;
  mask_size = λ n. n.0;
  network_string = λ n. n.0 ∷ n.1 ∷ [];
  contains = in_bits;
  contains_same = in_bits_same;
}
