-- ===== src/Access/Clientnets.antt =====
-- Lists of client networks, and the classes of client addresses
-- (webgui/internal/dnsserver/acl.go).
use resolix.Addresses.{NetPackage}
use resolix.Common.{
  ℕ, Bool, true, false, ◌&&◌, ◌||◌, Option, none, some, List, [], ◌∷◌, ◌++◌, leb, ◌==◌,
  nat_comparable, list_comparable, if◌then◌else◌, Text, bytes,
}

-- What else the code uses of package net.
pub record ClientNet : Type 1 where
  pub net : NetPackage
  pub open net use *
  -- IP.String of the shortest form, and the same of IP.Mask with a mask of so many bits
  pub ip_string : Ip → Text
  pub masked_string : ℕ → Ip → Text
  pub is_loopback : Ip → Bool
  pub is_private : Ip → Bool
  pub is_link_local_unicast : Ip → Bool
  -- the first two bytes of an IPv4 address
  pub octets : Ip → Option (ℕ × ℕ)
  -- fmt's %d
  pub decimal : ℕ → Text

abbrev pub is_separator : ℕ → Bool
is_separator c = c == b',' || c == 32 || c == 9 || c == 10 || c == 13

abbrev pub push : Text → List Text → List Text
push [] parts = parts
push (c ∷ s) parts = (c ∷ s) ∷ parts

-- strings.FieldsFunc with these separators: the first field so far, and those behind it.
abbrev pub split_fields : Text → Text × List Text
split_fields [] = ([], [])
split_fields (c ∷ s) =
    let (word, parts) = split_fields s in
    if is_separator c then ([], push word parts) else (c ∷ word, parts)

abbrev pub fields : Text → List Text
fields s = let (word, parts) = split_fields s in push word parts

abbrev pub contains_slash : Text → Bool
contains_slash [] = false
contains_slash (c ∷ s) = c == b'/' || contains_slash s

module _ (cn : ClientNet) where
  open cn use {
    Ip, Network, parse_ip, is_v4, parse_cidr, contains, ip_string, masked_string, is_loopback,
    is_private, is_link_local_unicast, octets, decimal,
  }

  abbrev pub with_length : Text → Option Ip → Text
  with_length part none = part
  with_length part (some ip) =
      if is_v4 ip then ip_string ip ++ bytes "/32" else part ++ bytes "/128"

  abbrev pub add_network : Option Network → List Network → List Network
  add_network none ns = ns
  add_network (some n) ns = n ∷ ns

  abbrev pub parse_parts : List Text → List Network
  parse_parts [] = []
  parse_parts (part ∷ parts) =
      add_network
        (parse_cidr (if contains_slash part then part else with_length part (parse_ip part)))
        (parse_parts parts)

  -- parseCIDRList
  unfoldable pub parse_cidr_list : Text → List Network
  parse_cidr_list raw = parse_parts (fields raw)

  abbrev pub any_contains : Ip → List Network → Bool
  any_contains ip [] = false
  any_contains ip (n ∷ ns) = contains n ip || any_contains ip ns

  abbrev pub contains_at : List Network → Option Ip → Bool
  contains_at ns none = false
  contains_at ns (some ip) = any_contains ip ns

  -- cidrListContains
  unfoldable pub cidr_list_contains : List Network → Text → Bool
  cidr_list_contains ns ip = contains_at ns (parse_ip ip)

  abbrev pub is_tailscale : Option (ℕ × ℕ) → Bool
  is_tailscale none = false
  is_tailscale (some (a, b)) = a == 100 && leb 64 b && leb b 127

  abbrev pub is_internal : Option Ip → Bool
  is_internal none = false
  is_internal (some ip) =
      if is_loopback ip || is_private ip || is_link_local_unicast ip
      then true
      else is_v4 ip && is_tailscale (octets ip)

  -- isInternalClientIP
  unfoldable pub is_internal_client_ip : Text → Bool
  is_internal_client_ip ip = is_internal (parse_ip ip)

  abbrev pub prefix_or : ℕ → ℕ → ℕ
  prefix_or most n = if leb 1 n && leb n most then n else most

  abbrev pub key_of_ip : ℕ → ℕ → Option Ip → Text
  key_of_ip v4 v6 none = []
  key_of_ip v4 v6 (some ip) =
      let n = if is_v4 ip then v4 else v6 in
      let whole : ℕ = if is_v4 ip then 32 else 128 in
      if n == whole then ip_string ip else masked_string n ip ++ bytes "/" ++ decimal n

  -- clientKey with both prefix lengths, 0 for any that is not positive.
  unfoldable pub client_key : ℕ → ℕ → Text → Text
  client_key v4 v6 ip = key_of_ip (prefix_or 32 v4) (prefix_or 128 v6) (parse_ip ip)
