-- ===== src/Clients/Apart.antt =====
-- Profiles that do not conflict (webgui/internal/clients/clients.go, validateConflicts and compile).
use resolix.Addresses.{NetPackage}
use resolix.Common.{
  ◌≡◌, refl, ap, ◌∙◌, Bool, false, not, Bool-cases, inl, inr, Option, none, some, List, [], ◌∷◌,
  length, All, All-Member, Member-All, Member, ◌==◌, ==_iff, nat_comparable, list_comparable, Text,
  trim_space, arith, if_intro,
}
use resolix.Clients.Profile.{
  Result, ok, err, ◌>>=◌, CidrEntry, Client, compile, compile_ids, compile_id, entry_of,
  host_network, has_slash,
}
use resolix.Clients.Registry.{same_id, clashes_with, clash, validate_conflicts}

-- What a result is, where there is one.
abbrev pub Good {ℓ} : {A : Type ℓ} → (A → Type 0) → Result A → Type 0
Good P (ok a) = P a
Good P (err e) = Unit

module _ (net : NetPackage) where
  open net use {Ip, Network, parse_ip, parse_cidr, mask_size, network_string, contains}

  -- No network of the one is a network of the other.
  abbrev pub Apart : Client Network → Client Network → Type 0
  Apart c d =
      (e f : CidrEntry Network)
      → Member e c.nets
      → Member f d.nets
      → e.bits ≡ f.bits
      → network_string e.network ≡ network_string f.network
      → ⊥

  clashes_with-Member :
      (e f : CidrEntry Network) (fs : List (CidrEntry Network))
      → clashes_with net e fs ≡ false
      → Member f fs
      → same_id net e f ≡ false
  clashes_with-Member e f [] h m = absurd (m tt)
  clashes_with-Member e f (g ∷ fs) h (inl same) = ap (same_id net e) same ∙ ground (arith, h)
  clashes_with-Member e f (g ∷ fs) h (inr later) =
      clashes_with-Member e f fs (ground (arith, h)) later

  clash-Member :
      (e f : CidrEntry Network) (es fs : List (CidrEntry Network))
      → clash net es fs ≡ false
      → Member e es
      → Member f fs
      → same_id net e f ≡ false
  clash-Member e f [] fs h m k = absurd (m tt)
  clash-Member e f (g ∷ es) fs h (inl same) k =
      ap (λ x. same_id net x f) same ∙ clashes_with-Member g f fs (ground (arith, h)) k
  clash-Member e f (g ∷ es) fs h (inr later) k = clash-Member e f es fs (ground (arith, h)) later k

  clash-Apart : (c d : Client Network) → clash net c.nets d.nets ≡ false → Apart c d
  clash-Apart c d h e f m k b s = ground (
    arith,
    clash-Member e f c.nets d.nets h m k,
    (==_iff e.bits f.bits).1 b,
    (==_iff (network_string e.network) (network_string f.network)).1 s,
  )

  -- What was validated conflicts with nothing.
  pub validate_conflicts-Apart :
      (cs : List (Client Network)) (d : Client Network) (b : Bool)
      → validate_conflicts net cs d ≡ ok b
      → All (λ c. Apart c d) cs
  unfolding validate_conflicts
  validate_conflicts-Apart [] d b h = tt
  validate_conflicts-Apart (c ∷ cs) d b h = elim (Bool-cases (clash net c.nets d.nets)) [
    | inl e ↦ absurd (ground (arith, h, e))
    | inr e ↦ (clash-Apart c d e, validate_conflicts-Apart cs d b (ground (arith, h, e)))
  ]

  -- The bits of an entry are those of its network.
  abbrev pub IsSized : CidrEntry Network → Type 0
  IsSized e = e.bits ≡ mask_size e.network

  entry_of-IsSized : (o : Option Network) → Good IsSized (entry_of net o)
  entry_of-IsSized none = tt
  entry_of-IsSized (some n) = refl

  compile_id-IsSized : (id : Text) → Good IsSized (compile_id net id)
  unfolding compile_id
  compile_id-IsSized id =
      if_intro (Good IsSized) (trim_space id == []) (λ _. tt)
        (λ _.
          if_intro (Good IsSized) (not (has_slash (trim_space id)))
            (λ _. host (parse_ip (trim_space id)))
            (λ _. entry_of-IsSized (parse_cidr (trim_space id))))
    where
      host : (o : Option Ip) → Good IsSized (host_network net (trim_space id) o)
      host none = tt
      host (some ip) = entry_of-IsSized _

  All-IsSized :
      (r : Result (CidrEntry Network)) (rs : Result (List (CidrEntry Network)))
      → Good IsSized r
      → Good (All IsSized) rs
      → Good (All IsSized) (r >>= λ e. rs >>= λ es. ok (e ∷ es))
  All-IsSized (err e) rs g gs = tt
  All-IsSized (ok e) (err x) g gs = tt
  All-IsSized (ok e) (ok es) g gs = (g, gs)

  compile_ids-IsSized : (ids : List Text) → Good (All IsSized) (compile_ids net ids)
  unfolding compile_ids
  compile_ids-IsSized [] = tt
  compile_ids-IsSized (id ∷ ids) =
      All-IsSized (compile_id net id) (compile_ids net ids) (compile_id-IsSized id)
        (compile_ids-IsSized ids)

  module _ (sort : List (CidrEntry Network) → List (CidrEntry Network))
      (sort_member : (es : List (CidrEntry Network)) (e : CidrEntry Network)
        → Member e (sort es)
        → Member e es) where
    -- A compiled profile keeps its name, and its entries are sized.
    pub record IsCompiled (c d : Client Network) : Type 0 where
      pub name : d.name ≡ c.name
      pub sized : All IsSized d.nets

    with_nets :
        (c : Client Network) (rs : Result (List (CidrEntry Network)))
        → Good (All IsSized) rs
        → Good (IsCompiled c) (rs >>= λ es. ok (record c { nets = sort es }))
    with_nets c (err e) g = tt
    with_nets c (ok es) g = record {
      name = refl;
      sized = Member-All IsSized (sort es) (λ e m. All-Member IsSized es e g (sort_member es e m));
    }

    pub compile-IsCompiled : (c : Client Network) → Good (IsCompiled c) (compile net sort c)
    unfolding compile
    compile-IsCompiled c =
        if_intro (Good (IsCompiled c)) (trim_space c.name == []) (λ _. tt)
          (λ _.
            if_intro (Good (IsCompiled c)) (length c.ids == 0) (λ _. tt)
              (λ _. with_nets c (compile_ids net c.ids) (compile_ids-IsSized c.ids)))
