-- ===== src/Clients/Changes.antt =====
-- Every change of the registry keeps it consistent (webgui/internal/clients/clients.go, Replace, Add,
-- Update and Delete).
use mathlib.Core.Path.{subst}
use resolix.Addresses.{NetPackage}
use resolix.Files.{Write}
use resolix.Common.{
  ℕ, ◌≡◌, refl, sym, Bool, Option, none, some, List, [], ◌∷◌, ◌++◌, All, replace_at, remove_at,
  Member, nat_comparable, list_comparable, Text,
}
use resolix.Clients.Profile.{Result, ok, err, ◌>>=◌, CidrEntry, Client, compile}
use resolix.Clients.Registry.{
  Registry, position, publish, validate_conflicts, validated, finish_add, finish_update,
  finish_replace, proposed_with, propose_at, add_at, add, update_at, update, delete_at, delete,
  propose_all, replace,
}
use resolix.Clients.Apart.{
  Good, Apart, IsSized, IsCompiled, compile-IsCompiled, validate_conflicts-Apart,
}
use resolix.Clients.Consistent.{
  Other, position-none, position-some, IsConsistent, Sound, distinct, snoc-IsConsistent,
  replace_at-IsConsistent, remove_at-IsConsistent, publish-IsConsistent,
}

-- A change that a request to the API makes.
pub data Call (Network : Type 0) : Type 0 where
  adds updates : Client Network → Call Network
  deletes : Text → Call Network
  replaces : List (Client Network) → Call Network

module _ (net : NetPackage) where
  open net use {Network}

  module _ (sort : List (CidrEntry Network) → List (CidrEntry Network)) where
    unfoldable pub apply : Registry Network → Call Network → Write → Registry Network × Result Bool
    apply r (adds c) w = add net sort r c w
    apply r (updates c) w = update net sort r c w
    apply r (deletes name) w = delete net r name w
    apply r (replaces cs) w = replace net sort r cs w

    abbrev pub apply_all : Registry Network → List (Call Network × Write) → Registry Network
    apply_all r [] = r
    apply_all r ((c, w) ∷ calls) = apply_all (apply r c w).0 calls

    module _
        (sort_member : (es : List (CidrEntry Network)) (e : CidrEntry Network)
          → Member e (sort es)
          → Member e es) where
      abbrev Compiled : Client Network → Client Network → Type 0
      Compiled = IsCompiled net sort sort_member

      validated-Apart :
          (others : List (Client Network)) (d : Client Network) (o : Result Bool)
          → validate_conflicts net others d ≡ o
          → Good
              (λ (x : Client Network). (x ≡ d) × All (λ c. Apart net c d) others)
              (o >>= λ (_ : Bool). ok d)
      validated-Apart others d (err e) p = tt
      validated-Apart others d (ok b) p = (refl, validate_conflicts-Apart net others d b p)

      finish_add-Sound :
          (r : Registry Network) (w : Write) (d : Client Network) (o : Result (Client Network))
          → IsConsistent net r.clients
          → All (Other d.name) r.clients
          → All (IsSized net) d.nets
          → Good (λ (x : Client Network). (x ≡ d) × All (λ c. Apart net c d) r.clients) o
          → Sound net (finish_add net r w o)
      finish_add-Sound r w d (err e) v names sized g = v
      finish_add-Sound r w d (ok x) v names sized g =
          subst (λ y. Sound net (publish r (r.clients ++ y ∷ []) w)) (sym g.0)
            (publish-IsConsistent net r (r.clients ++ d ∷ []) w v
              (snoc-IsConsistent net r.clients d v names g.1 sized))

      add-Sound :
          (r : Registry Network) (c : Client Network) (w : Write) (rc : Result (Client Network))
          → IsConsistent net r.clients
          → All (Other c.name) r.clients
          → Good (Compiled c) rc
          → Sound net (finish_add net r w (validated net r.clients rc))
      unfolding validated
      add-Sound r c w (err e) v names g = v
      add-Sound r c w (ok d) v names g =
          finish_add-Sound r w d _ v (subst (λ n. All (Other n) r.clients) (sym g.name) names)
            g.sized (validated-Apart r.clients d (validate_conflicts net r.clients d) refl)

      add_at-Sound :
          (r : Registry Network) (c : Client Network) (w : Write) (at : Option ℕ)
          → IsConsistent net r.clients
          → position c.name r.clients ≡ at
          → Sound net (add_at net sort r c w at)
      add_at-Sound r c w none v p =
          add-Sound r c w (compile net sort c) v (position-none c.name r.clients p)
            (compile-IsCompiled net sort sort_member c)
      add_at-Sound r c w (some n) v p = v

      finish_update-Sound :
          (r : Registry Network) (n : ℕ) (w : Write) (d : Client Network)
          (o : Result (Client Network))
          → IsConsistent net r.clients
          → All (Other d.name) (remove_at n r.clients)
          → All (IsSized net) d.nets
          → Good
              (λ (x : Client Network). (x ≡ d) × All (λ c. Apart net c d) (remove_at n r.clients))
              o
          → Sound net (finish_update net r n w o)
      finish_update-Sound r n w d (err e) v names sized g = v
      finish_update-Sound r n w d (ok x) v names sized g =
          subst (λ y. Sound net (publish r (replace_at n y r.clients) w)) (sym g.0)
            (publish-IsConsistent net r (replace_at n d r.clients) w v
              (replace_at-IsConsistent net n r.clients d v names g.1 sized))

      update_at-Sound :
          (r : Registry Network) (c : Client Network) (rc : Result (Client Network)) (w : Write)
          (at : Option ℕ)
          → IsConsistent net r.clients
          → position c.name r.clients ≡ at
          → Good (Compiled c) rc
          → Sound net (update_at net sort r rc w at)
      unfolding validated
      update_at-Sound r c (err e) w at v p g = v
      update_at-Sound r c (ok d) w none v p g = v
      update_at-Sound r c (ok d) w (some n) v p g =
          finish_update-Sound r n w d _ v
            (subst (λ m. All (Other m) (remove_at n r.clients)) (sym g.name)
              (position-some c.name r.clients n (distinct net r.clients v.compatible) p))
            g.sized
            (validated-Apart (remove_at n r.clients) d
              (validate_conflicts net (remove_at n r.clients) d) refl)

      delete_at-Sound :
          (r : Registry Network) (w : Write) (at : Option ℕ)
          → IsConsistent net r.clients
          → Sound net (delete_at net r w at)
      delete_at-Sound r w none v = v
      delete_at-Sound r w (some n) v =
          publish-IsConsistent net r (remove_at n r.clients) w v
            (remove_at-IsConsistent net n r.clients v)

      proposed_with-Good :
          (cs : List (Client Network)) (d : Client Network) (o : Result (Client Network))
          → IsConsistent net cs
          → All (Other d.name) cs
          → All (IsSized net) d.nets
          → Good (λ (x : Client Network). (x ≡ d) × All (λ c. Apart net c d) cs) o
          → Good (IsConsistent net) (proposed_with net cs o)
      proposed_with-Good cs d (err e) v names sized g = tt
      proposed_with-Good cs d (ok x) v names sized g =
          subst (λ y. IsConsistent net (cs ++ y ∷ [])) (sym g.0)
            (snoc-IsConsistent net cs d v names g.1 sized)

      proposed-Good :
          (cs : List (Client Network)) (c : Client Network) (rc : Result (Client Network))
          → IsConsistent net cs
          → All (Other c.name) cs
          → Good (Compiled c) rc
          → Good (IsConsistent net) (proposed_with net cs (validated net cs rc))
      unfolding validated
      proposed-Good cs c (err e) v names g = tt
      proposed-Good cs c (ok d) v names g =
          proposed_with-Good cs d _ v (subst (λ n. All (Other n) cs) (sym g.name) names) g.sized
            (validated-Apart cs d (validate_conflicts net cs d) refl)

      propose_at-Good :
          (cs : List (Client Network)) (c : Client Network) (at : Option ℕ)
          → IsConsistent net cs
          → position c.name cs ≡ at
          → Good (IsConsistent net) (propose_at net sort cs c at)
      propose_at-Good cs c (some n) v p = tt
      propose_at-Good cs c none v p =
          proposed-Good cs c (compile net sort c) v (position-none c.name cs p)
            (compile-IsCompiled net sort sort_member c)

      >>=-Good :
          {A B : Type 0} (P : A → Type 0) (Q : B → Type 0) (o : Result A) (f : A → Result B)
          → Good P o
          → ((a : A) → P a → Good Q (f a))
          → Good Q (o >>= f)
      >>=-Good P Q (err e) f g h = tt
      >>=-Good P Q (ok a) f g h = h a g

      propose_all-Good :
          (items cs : List (Client Network))
          → IsConsistent net cs
          → Good (IsConsistent net) (propose_all net sort cs items)
      unfolding propose_all
      propose_all-Good [] cs v = v
      propose_all-Good (c ∷ items) cs v =
          >>=-Good (IsConsistent net) (IsConsistent net)
            (propose_at net sort cs c (position c.name cs))
            (λ more. propose_all net sort more items)
            (propose_at-Good cs c (position c.name cs) v refl) (λ more. propose_all-Good items more)

      finish_replace-Sound :
          (r : Registry Network) (w : Write) (o : Result (List (Client Network)))
          → IsConsistent net r.clients
          → Good (IsConsistent net) o
          → Sound net (finish_replace net r w o)
      finish_replace-Sound r w (err e) v g = v
      finish_replace-Sound r w (ok cs) v g = publish-IsConsistent net r cs w v g

      apply-Sound :
          (r : Registry Network) (call : Call Network) (w : Write)
          → IsConsistent net r.clients
          → Sound net (apply r call w)
      unfolding apply add update delete replace
      apply-Sound r (adds c) w v = add_at-Sound r c w (position c.name r.clients) v refl
      apply-Sound r (updates c) w v =
          update_at-Sound r c (compile net sort c) w (position c.name r.clients) v refl
            (compile-IsCompiled net sort sort_member c)
      apply-Sound r (deletes name) w v = delete_at-Sound r w (position name r.clients) v
      apply-Sound r (replaces cs) w v =
          finish_replace-Sound r w (propose_all net sort [] cs) v
            (propose_all-Good cs [] (record { compatible = tt; sized = tt }))

      -- Whatever changes are asked for, and whatever the saves answer: no two profiles have a name
      -- or a network in common, if none had at first, and each entry has the bits of its network.
      pub apply_all-IsConsistent :
          (r : Registry Network) (calls : List (Call Network × Write))
          → IsConsistent net r.clients
          → IsConsistent net (apply_all r calls).clients
      apply_all-IsConsistent r [] v = v
      apply_all-IsConsistent r ((call, w) ∷ calls) v =
          apply_all-IsConsistent (apply r call w).0 calls (apply-Sound r call w v)
