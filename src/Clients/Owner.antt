-- ===== src/Clients/Owner.antt =====
-- Find against the abstract registry: a set of profiles, each with its networks
-- (webgui/internal/clients/clients.go, Find).
use mathlib.Core.Path.{subst}
use resolix.Addresses.{NetPackage}
use resolix.Common.{
  ◌≡◌, ◌≤◌, refl, ap, sym, ◌∙◌, true, ◌↔◌, inl, inr, none, some, List, All, All-Member, Member,
  Pairwise-Member, Text, arith,
}
use resolix.Clients.Profile.{CidrEntry, Client}
use resolix.Clients.Find.{Best, scan_clients, client_of, find_client}
use resolix.Clients.Longest.{Covers, From, scan_clients-Covers, scan_clients-From}
use resolix.Clients.Apart.{IsSized}
use resolix.Clients.Consistent.{Compatible, Compatible-swap, IsConsistent}

module _ (net : NetPackage) where
  open net use {Ip, Network, parse_ip, mask_size, network_string, contains, contains_same}

  -- The abstract specification: the profile has a network that contains the address, and no network
  -- of any profile that contains it is smaller. Nothing depends on an order.
  pub record IsOwner (ip : Ip) (cs : List (Client Network)) (c : Client Network) : Type 0 where
    pub present : Member c cs
    pub entry : CidrEntry Network
    pub listed : Member entry c.nets
    pub covers : contains entry.network ip ≡ true
    pub longest :
        (d : Client Network) (f : CidrEntry Network)
        → Member d cs
        → Member f d.nets
        → contains f.network ip ≡ true
        → f.bits ≤ entry.bits

  covered :
      (ip : Ip) (cs : List (Client Network)) (d : Client Network) (f : CidrEntry Network)
      → Member d cs
      → Member f d.nets
      → Covers net ip f (scan_clients net ip none cs)
  covered ip cs d f m k =
      All-Member (λ e. Covers net ip e (scan_clients net ip none cs)) d.nets f
        (All-Member
          (λ (c : Client Network). All (λ e. Covers net ip e (scan_clients net ip none cs)) c.nets)
          cs d (scan_clients-Covers net ip none cs) m)
        k

  -- The answer of the loops is an owner.
  scan_clients-IsOwner :
      (ip : Ip) (cs : List (Client Network)) (best : Best net) (c : Client Network)
      → scan_clients net ip none cs ≡ best
      → From net ip cs best
      → client_of net best ≡ some c
      → IsOwner ip cs c
  scan_clients-IsOwner ip cs none c e f h = cc
  scan_clients-IsOwner ip cs (some (d, b)) c e f h =
      subst (IsOwner ip cs) (ground (arith, h)) (record {
        present = f.0;
        entry = f.1.0;
        listed = f.1.1;
        covers = f.1.2;
        longest = λ x g m k inside.
            let le = subst (Covers net ip g) e (covered ip cs x g m k) inside in
            omega (arith, le, f.1.3);
      })

  -- Networks of two owners are one.
  same_owner :
      (ip : Ip) (cs : List (Client Network)) (c d : Client Network) (e f : CidrEntry Network)
      → IsConsistent net cs
      → Member c cs
      → Member d cs
      → Member e c.nets
      → Member f d.nets
      → contains e.network ip ≡ true
      → contains f.network ip ≡ true
      → e.bits ≡ f.bits
      → c ≡ d
  same_owner ip cs c d e f v m k me mf ce cf b =
      elim (Pairwise-Member (Compatible net) (Compatible-swap net) cs c d v.compatible m k) [
        | inl same ↦ same
        | inr apart ↦ absurd (
            apart.1 e f me mf b (
              contains_same e.network f.network ip (sym (sized c e m me) ∙ b ∙ sized d f k mf) ce
                cf))
      ]
    where
      sized :
          (x : Client Network) (g : CidrEntry Network)
          → Member x cs
          → Member g x.nets
          → IsSized net g
      sized x g n l =
          All-Member (IsSized net) x.nets g
            (All-Member (λ (y : Client Network). All (IsSized net) y.nets) cs x v.sized n) l

  IsOwner-client_of :
      (ip : Ip) (cs : List (Client Network)) (best : Best net) (c : Client Network)
      → IsConsistent net cs
      → scan_clients net ip none cs ≡ best
      → From net ip cs best
      → IsOwner ip cs c
      → client_of net best ≡ some c
  IsOwner-client_of ip cs none c v e f o = absurd (
      ground (
        arith,
        subst (Covers net ip o.entry) e (covered ip cs c o.entry o.present o.listed),
        o.covers,
      ))
  IsOwner-client_of ip cs (some (d, b)) c v e f o = ap some (
      same_owner ip cs d c f.1.0 o.entry v f.0 o.present f.1.1 o.listed f.1.2 o.covers (
        omega (
          arith,
          f.1.3,
          o.longest d f.1.0 f.0 f.1.1 f.1.2,
          subst (Covers net ip o.entry) e (covered ip cs c o.entry o.present o.listed) o.covers,
        )))

  -- In a consistent registry, whatever the order of the profiles and of their networks: Find of an
  -- address returns a profile exactly if it is the owner of the address, which has a network that
  -- contains it, where none that contains it is longer.
  pub find_client-IsOwner :
      (cs : List (Client Network)) (text : Text) (ip : Ip) (c : Client Network)
      → IsConsistent net cs
      → parse_ip text ≡ some ip
      → (find_client net cs text ≡ some c) ↔ IsOwner ip cs c
  unfolding find_client
  find_client-IsOwner cs text ip c v p = rw p (
    (λ h. scan_clients-IsOwner ip cs (scan_clients net ip none cs) c refl from h),
    λ o. IsOwner-client_of ip cs (scan_clients net ip none cs) c v refl from o,
  )
    where
      from : From net ip cs (scan_clients net ip none cs)
      from = scan_clients-From net ip cs none cs (λ x k. k) tt
