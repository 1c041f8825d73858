-- ===== src/Clients/Consistent.antt =====
-- The registry stays consistent (webgui/internal/clients/clients.go, Replace, Add, Update, Delete).
use mathlib.Core.Path.{subst}
use resolix.Addresses.{NetPackage}
use resolix.Files.{Write, written, failed, unsynced}
use resolix.Common.{
  ℕ, suc, ◌≡◌, ◌≢◌, refl, sym, ◌∙◌, Bool, Option, none, some, List, [], ◌∷◌, ◌++◌, All, All-map,
  All-append, All-remove_at, All-replace_at, Pairwise, Pairwise-snoc, Pairwise-remove_at,
  Pairwise-replace_at, replace_at, remove_at, ◌==◌, ==_iff, nat_comparable, list_comparable, Text,
  arith, if_intro,
}
use resolix.Clients.Profile.{Result, Client}
use resolix.Clients.Registry.{
  Registry, next, position, write_clients, save_clients, publish, save_clients,
}
use resolix.Clients.Apart.{Apart, IsSized}

next-none : (o : Option ℕ) → next o ≡ none → o ≡ none
next-none none p = refl
next-none (some n) p = cc

some_eq : {m n : ℕ} → some m ≡ some n → m ≡ n
some_eq p = ground (arith, p)

next-some : (o : Option ℕ) (n : ℕ) → next o ≡ some n → (m : ℕ) × (o ≡ some m) × (n ≡ suc m)
next-some none n p = cc
next-some (some m) n p = (m, refl, sym (some_eq p))

module _ {Network : Type 0} where
  abbrev pub Other : Text → Client Network → Type 0
  Other name c = c.name ≢ name

  pub position-none :
      (name : Text) (cs : List (Client Network)) → position name cs ≡ none → All (Other name) cs
  position-none name [] h = tt
  position-none name (c ∷ cs) h =
      if_intro (λ o. o ≡ none → All (Other name) (c ∷ cs)) (c.name == name) (λ _ p. cc)
        (λ e p. (
          (λ same. ground (arith, e, (==_iff c.name name).1 same)),
          position-none name cs (next-none (position name cs) p),
        ))
        h

  -- Where a name was found, the other profiles have other names.
  pub position-some :
      (name : Text) (cs : List (Client Network)) (n : ℕ)
      → Pairwise (λ (c d : Client Network). c.name ≢ d.name) cs
      → position name cs ≡ some n
      → All (Other name) (remove_at n cs)
  position-some name [] n p h = cc
  position-some name (c ∷ cs) n p h =
      if_intro (λ o. o ≡ some n → All (Other name) (remove_at n (c ∷ cs))) (c.name == name)
        (λ e q.
          subst (λ k. All (Other name) (remove_at k (c ∷ cs))) (some_eq q)
            (All-map cs (λ d differ same. differ ((==_iff c.name name).0 e ∙ sym same)) p.0))
        (λ e q.
          let (m, at, is) = next-some (position name cs) n q in
          subst (λ k. All (Other name) (remove_at k (c ∷ cs))) (sym is)
            (
              (λ same. ground (arith, e, (==_iff c.name name).1 same)),
              position-some name cs m p.1 at,
            ))
        h

module _ (net : NetPackage) where
  open net use {Network}

  abbrev pub Compatible : Client Network → Client Network → Type 0
  Compatible c d = (c.name ≢ d.name) × Apart net c d

  pub Compatible-swap : (c d : Client Network) → Compatible c d → Compatible d c
  Compatible-swap c d h = ((λ e. h.0 (sym e)), λ e f m k b s. h.1 f e k m (sym b) (sym s))

  -- No two profiles have a name or a network in common.
  pub record IsConsistent (cs : List (Client Network)) : Type 0 where
    pub compatible : Pairwise Compatible cs
    pub sized : All (λ (c : Client Network). All (IsSized net) c.nets) cs

  -- The names alone.
  pub distinct :
      (cs : List (Client Network))
      → Pairwise Compatible cs
      → Pairwise (λ (c d : Client Network). c.name ≢ d.name) cs
  distinct [] p = tt
  distinct (c ∷ cs) p = (All-map cs (λ d h. h.0) p.0, distinct cs p.1)

  both-All :
      (d : Client Network) (cs : List (Client Network))
      → All (Other d.name) cs
      → All (λ c. Apart net c d) cs
      → All (λ c. Compatible c d) cs
  both-All d [] a b = tt
  both-All d (c ∷ cs) a b = ((a.0, b.0), both-All d cs a.1 b.1)

  pub snoc-IsConsistent :
      (cs : List (Client Network)) (d : Client Network)
      → IsConsistent cs
      → All (Other d.name) cs
      → All (λ c. Apart net c d) cs
      → All (IsSized net) d.nets
      → IsConsistent (cs ++ d ∷ [])
  snoc-IsConsistent cs d v names apart sized = record {
    compatible = Pairwise-snoc Compatible cs d v.compatible (both-All d cs names apart);
    sized = All-append _ cs (d ∷ []) v.sized (sized, tt);
  }

  pub replace_at-IsConsistent :
      (n : ℕ) (cs : List (Client Network)) (d : Client Network)
      → IsConsistent cs
      → All (Other d.name) (remove_at n cs)
      → All (λ c. Apart net c d) (remove_at n cs)
      → All (IsSized net) d.nets
      → IsConsistent (replace_at n d cs)
  replace_at-IsConsistent n cs d v names apart sized = record {
    compatible =
        Pairwise-replace_at Compatible Compatible-swap n d cs v.compatible
          (both-All d (remove_at n cs) names apart);
    sized = All-replace_at _ n d cs sized v.sized;
  }

  pub remove_at-IsConsistent :
      (n : ℕ) (cs : List (Client Network)) → IsConsistent cs → IsConsistent (remove_at n cs)
  remove_at-IsConsistent n cs v = record {
    compatible = Pairwise-remove_at Compatible n cs v.compatible;
    sized = All-remove_at _ n cs v.sized;
  }

  save_clients-clients :
      (r : Registry Network) (cs : List (Client Network)) (w : Write)
      → (save_clients r cs w).0.clients ≡ r.clients
  unfolding save_clients
  save_clients-clients r cs w =
      if_intro (λ (a : Registry Network × Bool). a.0.clients ≡ r.clients) r.has_path
        (λ _. by_answer w) (λ _. refl)
    where
      by_answer : (w : Write) → (write_clients r cs w).0.clients ≡ r.clients
      by_answer written = refl
      by_answer failed = refl
      by_answer unsynced = refl

  abbrev pub Sound : Registry Network × Result Bool → Type 0
  Sound a = IsConsistent a.0.clients

  pub publish-IsConsistent :
      (r : Registry Network) (cs : List (Client Network)) (w : Write)
      → IsConsistent r.clients
      → IsConsistent cs
      → Sound (publish r cs w)
  unfolding publish
  publish-IsConsistent r cs w v k =
      if_intro Sound (save_clients r cs w).1 (λ _. k)
        (λ _. subst IsConsistent (sym (save_clients-clients r cs w)) v)
