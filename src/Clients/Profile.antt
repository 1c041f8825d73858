-- ===== src/Clients/Profile.antt =====
-- A client profile and the networks of its IDs (webgui/internal/clients/clients.go, Client and
-- compile). sort.Slice is a parameter.
use resolix.Addresses.{NetPackage}
use resolix.Common.{
  ℕ, Bool, false, not, ◌||◌, Option, none, some, List, [], ◌∷◌, ◌++◌, length, ◌==◌, nat_comparable,
  list_comparable, if◌then◌else◌, Text, bytes, trim_space,
}

pub data Error : Type 0 where
  no_name no_ids empty_id invalid_id repeated already_exists not_found not_saved not_read : Error
  conflicts_with : Text → Error

pub data Result {ℓ} (A : Type ℓ) : Type ℓ where
  ok : A → Result A
  err : Error → Result A

infixl 5 ◌>>=◌
abbrev pub ◌>>=◌ {ℓ κ} : {A : Type ℓ} {B : Type κ} → Result A → (A → Result B) → Result B
ok a >>= f = f a
err e >>= f = err e

pub record CidrEntry (Network : Type 0) : Type 0 where
  pub network : Network
  pub bits : ℕ

pub record Client (Network : Type 0) : Type 0 where
  pub name : Text
  pub ids : List Text
  pub tags : List Text
  pub use_global_settings : Bool
  pub filtering_enabled : Bool
  pub safe_search_enabled : Bool
  pub safe_search_engines : List Text
  pub upstreams : List Text
  pub exclude_from_log : Bool
  pub exclude_from_stats : Bool
  pub nets : List (CidrEntry Network)

abbrev pub has_slash : Text → Bool
has_slash [] = false
has_slash (c ∷ s) = c == b'/' || has_slash s

module _ (net : NetPackage) where
  open net use {Ip, Network, parse_ip, is_v4, parse_cidr, mask_size}

  abbrev pub entry_of : Option Network → Result (CidrEntry Network)
  entry_of none = err invalid_id
  entry_of (some n) = ok (record { network = n; bits = mask_size n })

  abbrev pub host_network : Text → Option Ip → Result (CidrEntry Network)
  host_network raw none = err invalid_id
  host_network raw (some ip) =
      entry_of (parse_cidr (raw ++ (if is_v4 ip then bytes "/32" else bytes "/128")))

  -- One ID in the loop of compile.
  unfoldable pub compile_id : Text → Result (CidrEntry Network)
  compile_id id =
      let raw = trim_space id in
      if raw == []
      then err empty_id
      else if not (has_slash raw)
      then host_network raw (parse_ip raw)
      else entry_of (parse_cidr raw)

  unfoldable pub compile_ids : List Text → Result (List (CidrEntry Network))
  compile_ids [] = ok []
  compile_ids (id ∷ ids) = do e ← compile_id id; es ← compile_ids ids; ok (e ∷ es)

  module _ (sort : List (CidrEntry Network) → List (CidrEntry Network)) where
    -- compile
    unfoldable pub compile : Client Network → Result (Client Network)
    compile c =
        if trim_space c.name == []
        then err no_name
        else if length c.ids == 0
        then err no_ids
        else do es ← compile_ids c.ids; ok (record c { nets = sort es })
