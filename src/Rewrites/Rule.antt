-- ===== src/Rewrites/Rule.antt =====
-- One rewrite and what it applies to (webgui/internal/rewrites/rewrites.go). Prefixes and addresses
-- are those of package netip: their types, the test that a prefix contains an address, and the
-- number of its bits are parameters. An address that is not valid is `none`.
use resolix.Common.{
  ℕ, Bool, true, ◌&&◌, Option, none, some, List, [], ◌∷◌, ◌++◌, length, ltb, ◌==◌, nat_comparable,
  list_comparable, if◌then◌else◌, Text, bytes, to_lower, trim_space, trim_prefix, trim_dot,
  has_prefix, has_suffix,
}

pub record Rewrite (Prefix : Type 0) : Type 0 where
  pub id : Text
  pub domain : Text
  pub kind : Text
  pub value : Text
  pub source_cidrs : List Text
  pub source_prefixes : List Prefix

-- NormalizeDomain
abbrev pub normalize_domain : Text → Text
normalize_domain d = trim_dot (trim_prefix (to_lower (trim_space d)) (bytes "."))

-- The domain without its leading wildcard.
abbrev pub base_of : Text → Text
base_of domain = trim_prefix domain (bytes "*.")

-- The part of domainSpecificity that depends on the domain of the rule alone.
unfoldable pub suffix_specificity : Text → Text → Option ℕ
suffix_specificity rule domain =
    if domain == base_of rule
    then if has_prefix rule (bytes "*.") then none else some (length (base_of rule))
    else if has_suffix domain (bytes "." ++ base_of rule)
    then some (length (base_of rule))
    else none

-- domainSpecificity
abbrev pub domain_specificity : {Prefix : Type 0} → Rewrite Prefix → Text → Option ℕ
domain_specificity item domain = suffix_specificity item.domain domain

module _ {Prefix Addr : Type 0} (contains : Prefix → Addr → Bool) (bits : Prefix → ℕ) where
  -- The loop of sourceSpecificity; `none` stands for -1.
  unfoldable pub longest : Addr → Option ℕ → List Prefix → Option ℕ
  longest addr best [] = best
  longest addr best (p ∷ ps) =
      longest addr (if contains p addr && above (bits p) best then some (bits p) else best) ps
    where
      above : ℕ → Option ℕ → Bool
      above n none = true
      above n (some b) = ltb b n

  -- sourceSpecificity
  unfoldable pub source_specificity : Rewrite Prefix → Option Addr → Option ℕ
  source_specificity item addr =
      if length item.source_prefixes == 0
      then if length item.source_cidrs == 0 then some 0 else none
      else of_addr addr
    where
      of_addr : Option Addr → Option ℕ
      of_addr none = none
      of_addr (some a) = longest a none item.source_prefixes
