-- ===== src/Common/Related.antt =====
-- Changes of a list at an index, and relations between any two of its elements.
use Prim.Native.Nat.{ℕ, zero, suc}
use mathlib.Core.Path.{◌≡◌, refl, sym, ◌∙◌, subst}
use mathlib.Core.Logic.{◌⊎◌, inl, inr}
use mathlib.Core.List.{List, [], ◌∷◌, ◌++◌}
use mathlib.Core.Option.{Option, none, some}
use resolix.Common.Lists.{take, drop, All, All-map, All-append, Member}

module _ {ℓ} {A : Type ℓ} where
  abbrev pub replace_at : ℕ → A → List A → List A
  replace_at n y [] = []
  replace_at zero y (x ∷ xs) = y ∷ xs
  replace_at (suc n) y (x ∷ xs) = x ∷ replace_at n y xs

  abbrev pub get_elem? : List A → ℕ → Option A
  get_elem? [] n = none
  get_elem? (x ∷ xs) zero = some x
  get_elem? (x ∷ xs) (suc n) = get_elem? xs n

  abbrev pub remove_at : ℕ → List A → List A
  remove_at n xs = take n xs ++ drop (suc n) xs

  pub All-Member {κ} : (P : A → Type κ) (xs : List A) (x : A) → All P xs → Member x xs → P x
  All-Member P [] x a m = absurd (m tt)
  All-Member P (y ∷ xs) x a (inl same) = subst P (sym same) a.0
  All-Member P (y ∷ xs) x a (inr later) = All-Member P xs x a.1 later

  pub Member-All {κ} : (P : A → Type κ) (xs : List A) → ((x : A) → Member x xs → P x) → All P xs
  Member-All P [] h = tt
  Member-All P (x ∷ xs) h = (h x (inl refl), Member-All P xs (λ y m. h y (inr m)))

  pub All-remove_at {κ} : (P : A → Type κ) (n : ℕ) (xs : List A) → All P xs → All P (remove_at n xs)
  All-remove_at P zero [] a = tt
  All-remove_at P (suc n) [] a = tt
  All-remove_at P zero (x ∷ xs) a = a.1
  All-remove_at P (suc n) (x ∷ xs) a = (a.0, All-remove_at P n xs a.1)

  pub All-replace_at {κ} :
      (P : A → Type κ) (n : ℕ) (y : A) (xs : List A) → P y → All P xs → All P (replace_at n y xs)
  All-replace_at P n y [] p a = tt
  All-replace_at P zero y (x ∷ xs) p a = (p, a.1)
  All-replace_at P (suc n) y (x ∷ xs) p a = (a.0, All-replace_at P n y xs p a.1)

  module _ {κ} (R : A → A → Type κ) where
    abbrev pub Pairwise : List A → Type κ
    Pairwise [] = Unit
    Pairwise (x ∷ xs) = All (R x) xs × Pairwise xs

    pub Pairwise-snoc :
        (xs : List A) (y : A) → Pairwise xs → All (λ x. R x y) xs → Pairwise (xs ++ y ∷ [])
    Pairwise-snoc [] y p a = (tt, tt)
    Pairwise-snoc (x ∷ xs) y p a =
        (All-append (R x) xs (y ∷ []) p.0 (a.0, tt), Pairwise-snoc xs y p.1 a.1)

    pub Pairwise-remove_at : (n : ℕ) (xs : List A) → Pairwise xs → Pairwise (remove_at n xs)
    Pairwise-remove_at zero [] p = tt
    Pairwise-remove_at (suc n) [] p = tt
    Pairwise-remove_at zero (x ∷ xs) p = p.1
    Pairwise-remove_at (suc n) (x ∷ xs) p =
        (All-remove_at (R x) n xs p.0, Pairwise-remove_at n xs p.1)

    module _ (swap : (x y : A) → R x y → R y x) where
      pub Pairwise-replace_at :
          (n : ℕ) (y : A) (xs : List A)
          → Pairwise xs
          → All (λ x. R x y) (remove_at n xs)
          → Pairwise (replace_at n y xs)
      Pairwise-replace_at n y [] p a = tt
      Pairwise-replace_at zero y (x ∷ xs) p a = (All-map xs (λ z. swap z y) a, p.1)
      Pairwise-replace_at (suc n) y (x ∷ xs) p a =
          (All-replace_at (R x) n y xs a.0 p.0, Pairwise-replace_at n y xs p.1 a.1)

      -- Two elements are one, or related.
      pub Pairwise-Member :
          (xs : List A) (x y : A) → Pairwise xs → Member x xs → Member y xs → (x ≡ y) ⊎ R x y
      Pairwise-Member [] x y p m k = absurd (m tt)
      Pairwise-Member (z ∷ zs) x y p (inl a) (inl b) = inl (a ∙ sym b)
      Pairwise-Member (z ∷ zs) x y p (inl a) (inr k) =
          inr (subst (λ w. R w y) (sym a) (All-Member (R z) zs y p.0 k))
      Pairwise-Member (z ∷ zs) x y p (inr m) (inl b) =
          inr (swap y x (subst (λ w. R w x) (sym b) (All-Member (R z) zs x p.0 m)))
      Pairwise-Member (z ∷ zs) x y p (inr m) (inr k) = Pairwise-Member zs x y p.1 m k
