-- ===== src/Clients/Longest.antt =====
-- What the loops of Find come to (webgui/internal/clients/clients.go): the longest prefix that
-- contains the address.
use resolix.Addresses.{NetPackage}
use resolix.Common.{
  ◌≡◌, ◌≤◌, refl, true, false, ◌&&◌, inl, inr, none, some, List, [], ◌∷◌, All, All-map, Member, ltb,
  if◌then◌else◌, arith, if_intro,
}
use resolix.Clients.Profile.{CidrEntry, Client}
use resolix.Clients.Find.{Best, above, scan_nets, scan_clients}

module _ (net : NetPackage) where
  open net use {Ip, Network, contains}

  -- The state is no worse than an entry that contains the address.
  abbrev pub Covers : Ip → CidrEntry Network → Best net → Type 0
  Covers ip e none = contains e.network ip ≡ false
  Covers ip e (some (c, b)) = contains e.network ip ≡ true → e.bits ≤ b

  -- The state comes from an entry of one of the clients.
  abbrev pub From : Ip → List (Client Network) → Best net → Type 0
  From ip cs none = Unit
  From ip cs (some (c, b)) =
      Member c cs
      × ((e : CidrEntry Network) × Member e c.nets × (contains e.network ip ≡ true) × (e.bits ≡ b))

  abbrev Grown : Best net → Best net → Type 0
  Grown none best = Unit
  Grown (some (c, b)) none = ⊥
  Grown (some (c, b)) (some (d, b')) = b ≤ b'

  Grown-refl : (best : Best net) → Grown best best
  Grown-refl none = tt
  Grown-refl (some (c, b)) = omega arith

  Grown-trans : (x y z : Best net) → Grown x y → Grown y z → Grown x z
  Grown-trans none y z p q = tt
  Grown-trans (some a) none z p q = absurd p
  Grown-trans (some a) (some b) none p q = absurd q
  Grown-trans (some a) (some b) (some c) p q = omega (arith, p, q)

  abbrev one : Ip → Client Network → Best net → CidrEntry Network → Best net
  one ip c best e =
      if contains e.network ip && above net e.bits best then some (c, e.bits) else best

  one-Grown :
      (ip : Ip) (c : Client Network) (best : Best net) (e : CidrEntry Network)
      → Grown best (one ip c best e)
  one-Grown ip c none e = tt
  one-Grown ip c (some (d, b)) e =
      if_intro (Grown (some (d, b))) (contains e.network ip && ltb b e.bits)
        (λ h. ground (arith, h)) (λ _. omega arith)

  one-Covers :
      (ip : Ip) (c : Client Network) (best : Best net) (e : CidrEntry Network)
      → Covers ip e (one ip c best e)
  one-Covers ip c none e =
      if_intro (Covers ip e) (contains e.network ip && true) (λ _ _. omega arith)
        (λ h. ground (arith, h))
  one-Covers ip c (some (d, b)) e =
      if_intro (Covers ip e) (contains e.network ip && ltb b e.bits) (λ _ _. omega arith)
        (λ h k. ground (arith, h, k))

  Covers-Grown :
      (ip : Ip) (e : CidrEntry Network) (x y : Best net) → Grown x y → Covers ip e x → Covers ip e y
  Covers-Grown ip e none none g c = c
  Covers-Grown ip e none (some (d, b)) g c = λ h. ground (arith, c, h)
  Covers-Grown ip e (some (d, a)) none g c = absurd g
  Covers-Grown ip e (some (d, a)) (some (d', b)) g c = λ h. omega (arith, g, c h)

  scan_nets-Grown :
      (ip : Ip) (c : Client Network) (best : Best net) (es : List (CidrEntry Network))
      → Grown best (scan_nets net ip c best es)
  unfolding scan_nets
  scan_nets-Grown ip c best [] = Grown-refl best
  scan_nets-Grown ip c best (e ∷ es) =
      Grown-trans best (one ip c best e) _ (one-Grown ip c best e)
        (scan_nets-Grown ip c (one ip c best e) es)

  scan_nets-Covers :
      (ip : Ip) (c : Client Network) (best : Best net) (es : List (CidrEntry Network))
      → All (λ e. Covers ip e (scan_nets net ip c best es)) es
  unfolding scan_nets
  scan_nets-Covers ip c best [] = tt
  scan_nets-Covers ip c best (e ∷ es) = (
    Covers-Grown ip e (one ip c best e) _ (scan_nets-Grown ip c (one ip c best e) es)
        (one-Covers ip c best e),
    scan_nets-Covers ip c (one ip c best e) es,
  )

  scan_clients-Grown :
      (ip : Ip) (best : Best net) (cs : List (Client Network))
      → Grown best (scan_clients net ip best cs)
  unfolding scan_clients
  scan_clients-Grown ip best [] = Grown-refl best
  scan_clients-Grown ip best (c ∷ cs) =
      Grown-trans best (scan_nets net ip c best c.nets) _ (scan_nets-Grown ip c best c.nets)
        (scan_clients-Grown ip (scan_nets net ip c best c.nets) cs)

  pub scan_clients-Covers :
      (ip : Ip) (best : Best net) (cs : List (Client Network))
      → All (λ (c : Client Network). All (λ e. Covers ip e (scan_clients net ip best cs)) c.nets) cs
  unfolding scan_clients
  scan_clients-Covers ip best [] = tt
  scan_clients-Covers ip best (c ∷ cs) =
      let here = scan_nets net ip c best c.nets in
      (
        All-map c.nets (λ e. Covers-Grown ip e here _ (scan_clients-Grown ip here cs))
            (scan_nets-Covers ip c best c.nets),
        scan_clients-Covers ip here cs,
      )

  -- Where the best comes from: an entry of `c` that was seen, or what there was before.
  scan_nets-From :
      (ip : Ip) (all : List (Client Network)) (c : Client Network) (best : Best net)
      (es : List (CidrEntry Network))
      → Member c all
      → ((e : CidrEntry Network) → Member e es → Member e c.nets)
      → From ip all best
      → From ip all (scan_nets net ip c best es)
  unfolding scan_nets
  scan_nets-From ip all c best [] m sub f = f
  scan_nets-From ip all c best (e ∷ es) m sub f =
      scan_nets-From ip all c (one ip c best e) es m (λ x k. sub x (inr k))
        (if_intro (From ip all) (contains e.network ip && above net e.bits best)
          (λ h. (m, (e, sub e (inl refl), ground (arith, h), refl))) (λ _. f))

  pub scan_clients-From :
      (ip : Ip) (all : List (Client Network)) (best : Best net) (cs : List (Client Network))
      → ((c : Client Network) → Member c cs → Member c all)
      → From ip all best
      → From ip all (scan_clients net ip best cs)
  unfolding scan_clients
  scan_clients-From ip all best [] sub f = f
  scan_clients-From ip all best (c ∷ cs) sub f =
      scan_clients-From ip all (scan_nets net ip c best c.nets) cs (λ x k. sub x (inr k))
        (scan_nets-From ip all c best c.nets (sub c (inl refl)) (λ e k. k) f)
