-- ===== src/Common/Assoc.antt =====
-- Go maps as association lists with a `Comparable` instance on the keys.
use Prim.Native.Nat.{◌+◌, ◌≤◌}
use mathlib.Core.Path.{◌≡◌, refl, ap, sym, ◌∙◌}
use mathlib.Core.Logic.{◌⊎◌, inl, inr}
use mathlib.Core.Bool.{Bool, false}
use mathlib.Core.List.{List, [], ◌∷◌, ◌++◌}
use mathlib.Core.Option.{Option, none, some}
use native.Mathlib.Omega.{arith}
use resolix.Common.Tests.{Comparable, ◌==◌, ==_iff, ==_refl, Bool-cases, if◌then◌else◌}
use resolix.Common.Lists.{length, init_of, last?, drop, keep}

module _ {ℓ κ} {K : Type ℓ} {V : Type κ} ⦃c : Comparable K⦄ where
  -- m[k], with the comma-ok result as an option.
  unfoldable pub find : K → List (K × V) → Option V
  find k [] = none
  find k ((j, v) ∷ m) = if j == k then some v else find k m

  -- m[k] = v
  unfoldable pub store : K → V → List (K × V) → List (K × V)
  store k v [] = (k, v) ∷ []
  store k v ((j, w) ∷ m) = if j == k then (k, v) ∷ m else (j, w) ∷ store k v m

  -- delete(m, k); every pair with the key goes.
  unfoldable pub without : K → List (K × V) → List (K × V)
  without k [] = []
  without k ((j, w) ∷ m) = let rest = without k m in if j == k then rest else (j, w) ∷ rest

  -- No key stands twice.
  abbrev pub Fresh : K → List (K × V) → Type κ
  Fresh k m = find k m ≡ none

  abbrev pub Unique : List (K × V) → Type κ
  Unique [] = Unit
  Unique ((j, w) ∷ m) = Fresh j m × Unique m

  pub find-store :
      (k j : K) (v : V) (m : List (K × V))
      → find j (store k v m) ≡ (if k == j then some v else find j m)
  unfolding find store
  find-store k j v [] = refl
  find-store k j v ((i, w) ∷ m) =
      ground (arith, ==_iff k j, ==_iff i k, ==_iff i j, find-store k j v m)

  pub find-without :
      (k j : K) (m : List (K × V)) → find j (without k m) ≡ (if k == j then none else find j m)
  unfolding find without
  find-without k j [] = ground arith
  find-without k j ((i, w) ∷ m) =
      ground (arith, ==_iff k j, ==_iff i k, ==_iff i j, find-without k j m)

  pub without-Unique : (k : K) (m : List (K × V)) → Unique m → Unique (without k m)
  unfolding find without
  without-Unique k [] u = u
  without-Unique k ((i, w) ∷ m) u =
      ground (arith, ==_iff i k, ==_iff k i, find-without k i m, without-Unique k m u.1)

  pub length-without_le : (k : K) (m : List (K × V)) → length (without k m) ≤ length m
  unfolding without
  length-without_le k [] = omega arith
  length-without_le k ((i, w) ∷ m) = ground (arith, length-without_le k m)

  pub without_absent : (k : K) (m : List (K × V)) → find k m ≡ none → without k m ≡ m
  unfolding find without
  without_absent k [] h = refl
  without_absent k ((i, w) ∷ m) h = ground (arith, ==_iff i k, without_absent k m)

  pub length-without :
      (k : K) (v : V) (m : List (K × V))
      → Unique m
      → find k m ≡ some v
      → length (without k m) + 1 ≡ length m
  unfolding find without
  length-without k v [] u h = cc
  length-without k v ((i, w) ∷ m) u h =
      ground (arith, ==_iff i k, without_absent k m, length-without k v m u.1)

  pub store-Unique : (k : K) (v : V) (m : List (K × V)) → Unique m → Unique (store k v m)
  unfolding find store
  store-Unique k v [] u = ground arith
  store-Unique k v ((i, w) ∷ m) u =
      ground (arith, ==_iff i k, ==_iff k i, find-store k i v m, store-Unique k v m u.1)

  pub length-store :
      (k : K) (v w : V) (m : List (K × V)) → find k m ≡ some w → length (store k v m) ≡ length m
  unfolding find store
  length-store k v w [] h = cc
  length-store k v w ((i, x) ∷ m) h = ground (arith, length-store k v w m)

  pub find-init_of : (k : K) (m : List (K × V)) → find k m ≡ none → find k (init_of m) ≡ none
  unfolding find
  find-init_of k [] h = refl
  find-init_of k (x ∷ []) h = refl
  find-init_of k (x ∷ y ∷ m) h = ground (arith, find-init_of k (y ∷ m))

  pub init_of-Unique : (m : List (K × V)) → Unique m → Unique (init_of m)
  init_of-Unique [] u = u
  init_of-Unique (x ∷ []) u = tt
  init_of-Unique (x ∷ y ∷ m) u = (find-init_of x.0 (y ∷ m) u.0, init_of-Unique (y ∷ m) u.1)

  -- Dropping the last pair hides its key alone.
  pub find-init_of_ne :
      (k j : K) (v : V) (m : List (K × V))
      → last? m ≡ some (j, v)
      → (j == k) ≡ false
      → find k (init_of m) ≡ find k m
  unfolding find
  find-init_of_ne k j v [] h n = cc
  find-init_of_ne k j v (x ∷ []) h n = ground arith
  find-init_of_ne k j v (x ∷ y ∷ m) h n = ground (arith, find-init_of_ne k j v (y ∷ m) h n)

  -- The last pair's key is found in the list, and not in the list without that pair.
  find_of_last : (j : K) (w : V) (m : List (K × V)) → last? m ≡ some (j, w) → find j m ≡ none → ⊥
  unfolding find
  find_of_last j w [] h n = cc
  find_of_last j w (x ∷ []) h n = ground (arith, ==_refl j)
  find_of_last j w (x ∷ y ∷ m) h n = ground (arith, find_of_last j w (y ∷ m) h)

  pub find-init_of_self :
      (j : K) (w : V) (m : List (K × V))
      → Unique m
      → last? m ≡ some (j, w)
      → find j (init_of m) ≡ none
  unfolding find
  find-init_of_self j w [] u h = cc
  find-init_of_self j w (x ∷ []) u h = refl
  find-init_of_self j w (x ∷ y ∷ m) u h =
      ground (arith, ==_iff x.0 j, find_of_last j w (y ∷ m) h, find-init_of_self j w (y ∷ m) u.1 h)

  pub find-append_one :
      (k j : K) (v : V) (m : List (K × V))
      → find k m ≡ none
      → find j (m ++ (k, v) ∷ []) ≡ (if k == j then some v else find j m)
  unfolding find
  find-append_one k j v [] h = refl
  find-append_one k j v ((i, w) ∷ m) h =
      ground (arith, ==_iff k j, ==_iff i k, ==_iff i j, find-append_one k j v m)

  pub append_one-Unique :
      (k : K) (v : V) (m : List (K × V)) → find k m ≡ none → Unique m → Unique (m ++ (k, v) ∷ [])
  unfolding find
  append_one-Unique k v [] h u = (refl, tt)
  append_one-Unique k v ((i, w) ∷ m) h u =
      ground (arith, ==_iff k i, ==_iff i k, find-append_one k i v m, append_one-Unique k v m, u)

  -- What is left of a map keeps its values.
  abbrev pub Shrinks : List (K × V) → List (K × V) → Type (ℓ ⊔ κ)
  Shrinks m n = (k : K) → (find k n ≡ find k m) ⊎ (find k n ≡ none)

  pub Shrinks-none : (m n : List (K × V)) (k : K) → Shrinks m n → find k m ≡ none → find k n ≡ none
  Shrinks-none m n k s h = elim (s k) [ inl e ↦ e ∙ h | inr e ↦ e ]

  pub drop_first-Shrinks : (m : List (K × V)) → Unique m → Shrinks m (drop 1 m)
  unfolding find
  drop_first-Shrinks [] u k = inl refl
  drop_first-Shrinks ((i, w) ∷ m) u k = elim (Bool-cases (i == k)) [
    | inl e ↦ inr (ap (λ j. find j m) (sym ((==_iff i k).0 e)) ∙ u.0)
    | inr e ↦ inl (rw e refl)
  ]

  pub drop_first-Unique : (m : List (K × V)) → Unique m → Unique (drop 1 m)
  drop_first-Unique [] u = tt
  drop_first-Unique ((i, w) ∷ m) u = u.1

  pub keep-Shrinks : (p : K × V → Bool) (m : List (K × V)) → Unique m → Shrinks m (keep p m)
  unfolding find
  keep-Shrinks p [] u k = inl refl
  keep-Shrinks p ((i, w) ∷ m) u k = elim (Bool-cases (p (i, w))) [
    | inl e ↦ rw e (elim (Bool-cases (i == k)) [
      | inl f ↦ rw f (inl refl)
      | inr f ↦ rw f (keep-Shrinks p m u.1 k)
    ])
    | inr e ↦ rw e (elim (Bool-cases (i == k)) [
      | inl f ↦ inr (
          Shrinks-none m (keep p m) k (keep-Shrinks p m u.1)
            (ap (λ j. find j m) (sym ((==_iff i k).0 f)) ∙ u.0))
      | inr f ↦ rw f (keep-Shrinks p m u.1 k)
    ])
  ]

  pub keep-Unique : (p : K × V → Bool) (m : List (K × V)) → Unique m → Unique (keep p m)
  unfolding find
  keep-Unique p [] u = tt
  keep-Unique p ((i, w) ∷ m) u = elim (Bool-cases (p (i, w))) [
    | inl e ↦ rw e (Shrinks-none m (keep p m) i (keep-Shrinks p m u.1) u.0, keep-Unique p m u.1)
    | inr e ↦ rw e (keep-Unique p m u.1)
  ]
