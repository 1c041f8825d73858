-- ===== src/Upstream/Order.antt =====
-- The weighted order tries every candidate (webgui/internal/upstream/pool.go, weightedOrder).
use resolix.Common.{
  ℕ, zero, suc, ◌+◌, ◌≤◌, ◌<◌, ◌≡◌, ◌⊎◌, inl, inr, refl, List, [], ◌∷◌, ◌++◌, length, map, Member,
  remove_at, if_intro, arith,
}
use resolix.Upstream.Pool.{Resolver, Pool}
use resolix.Upstream.Exchange.{
  World, weighed, total, index_of, resolver_at, draw_all, weighted_order,
}

member_left {ℓ} : {A : Type ℓ} (x : A) (xs ys : List A) → Member x xs → Member x (xs ++ ys)
member_left x [] ys m = absurd (m tt)
member_left x (y ∷ xs) ys (inl e) = inl e
member_left x (y ∷ xs) ys (inr m) = inr (member_left x xs ys m)

member_right {ℓ} : {A : Type ℓ} (x : A) (xs ys : List A) → Member x ys → Member x (xs ++ ys)
member_right x [] ys m = m
member_right x (y ∷ xs) ys m = inr (member_right x xs ys m)

length-remove_at_le {ℓ} :
    {A : Type ℓ} (i : ℕ) (x : A) (xs : List A)
    → i < length (x ∷ xs)
    → length (remove_at i (x ∷ xs)) ≤ length xs
length-remove_at_le zero x xs h = omega arith
length-remove_at_le (suc i) x [] h = absurd (omega (arith, h))
length-remove_at_le (suc i) x (y ∷ xs) h =
    omega (arith, length-remove_at_le i y xs (omega (arith, h)))

module _ (world : World) where
  open world use {floats, draw}
  open floats use {Float, nought, sub, mul, is_positive}

  abbrev names : List (Resolver × Float) → List Resolver
  names remaining = map (λ c. c.0) remaining

  -- A candidate is the one at an index, or among those that are left.
  drawn_or_left :
      (r : Resolver) (i : ℕ) (remaining : List (Resolver × Float))
      → Member r (names remaining)
      → Member r (resolver_at world i remaining) ⊎ Member r (names (remove_at i remaining))
  drawn_or_left r i [] m = absurd (m tt)
  drawn_or_left r zero (c ∷ remaining) (inl e) = inl (inl e)
  drawn_or_left r zero (c ∷ remaining) (inr m) = inr m
  drawn_or_left r (suc i) (c ∷ remaining) (inl e) = inr (inl e)
  drawn_or_left r (suc i) (c ∷ remaining) (inr m) = elim (drawn_or_left r i remaining m) [
    | inl d ↦ inl d
    | inr l ↦ inr (inr l)
  ]

  index_of-lt :
      (pick : Float) (i : ℕ) (remaining : List (Resolver × Float))
      → (index_of world pick i remaining ≡ 0)
        ⊎ (index_of world pick i remaining < i + length remaining)
  index_of-lt pick i [] = inl refl
  index_of-lt pick i (c ∷ remaining) =
      let later = index_of-lt (sub pick c.1) (i + 1) remaining in
      if_intro (λ n. (n ≡ 0) ⊎ (n < i + length (c ∷ remaining))) (is_positive (sub pick c.1))
        (λ _. elim later [ inl e ↦ inl e | inr l ↦ inr (omega (arith, l)) ])
        (λ _. inr (omega arith))

  -- A turn takes a candidate that is there.
  left-length :
      (pick : Float) (c : Resolver × Float) (remaining : List (Resolver × Float))
      → length (remove_at (index_of world pick 0 (c ∷ remaining)) (c ∷ remaining))
        ≤ length remaining
  left-length pick c remaining =
      let i = index_of world pick 0 (c ∷ remaining) in
      let there : i < length (c ∷ remaining) = elim (index_of-lt pick 0 (c ∷ remaining)) [
        | inl e ↦ omega (arith, e)
        | inr l ↦ omega (arith, l)
      ] in
      length-remove_at_le i c remaining there

  draw_all-Member :
      (r : Resolver) (fuel n : ℕ) (remaining : List (Resolver × Float))
      → length remaining ≤ fuel
      → Member r (names remaining)
      → Member r (draw_all world fuel n remaining)
  draw_all-Member r fuel n [] h m = absurd (m tt)
  draw_all-Member r zero n (c ∷ remaining) h m = absurd (omega (arith, h))
  draw_all-Member r (suc fuel) n (c ∷ remaining) h m =
      let pick = mul (draw n) (total world nought (c ∷ remaining)) in
      let i = index_of world pick 0 (c ∷ remaining) in
      elim (drawn_or_left r i (c ∷ remaining) m) [
        | inl d ↦ member_left r (resolver_at world i (c ∷ remaining)) _ d
        | inr l ↦ member_right r (resolver_at world i (c ∷ remaining)) _ (
            draw_all-Member r fuel (n + 1) (remove_at i (c ∷ remaining))
              (omega (arith, h, left-length pick c remaining)) l)
      ]

  length-weighed : (p : Pool Float) (rs : List Resolver) → length (weighed world p rs) ≡ length rs
  length-weighed p [] = refl
  length-weighed p (r ∷ rs) = ground (arith, length-weighed p rs)

  names_weighed :
      (x : Resolver) (p : Pool Float) (rs : List Resolver)
      → Member x rs
      → Member x (names (weighed world p rs))
  names_weighed x p [] m = m
  names_weighed x p (r ∷ rs) (inl e) = inl e
  names_weighed x p (r ∷ rs) (inr m) = inr (names_weighed x p rs m)

  pub weighted_order-Member :
      (r : Resolver) (p : Pool Float) (rs : List Resolver)
      → Member r rs
      → Member r (weighted_order world p rs)
  unfolding weighted_order
  weighted_order-Member r p rs m =
      draw_all-Member r (length rs) 0 (weighed world p rs) (omega (arith, length-weighed p rs))
        (names_weighed r p rs m)
