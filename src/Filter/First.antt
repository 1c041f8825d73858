-- ===== src/Filter/First.antt =====
-- The indexed search finds what a search of all rules in their order finds
-- (webgui/internal/filter/filter.go, buildRuleIndexes and firstIndexedMatch).
use resolix.Common.{
  ℕ, ◌<◌, ◌≡◌, ◌≢◌, refl, ap, sym, ◌∙◌, false, Bool-cases, inl, inr, Option, none, some, List, [],
  ◌∷◌, ltb, ◌==◌, ==_iff, nat_comparable, list_comparable, if◌then◌else◌, Text, find, arith,
  if_intro, has_suffix,
}
use resolix.Filter.Indexes.{IndexedRule, earlier_of, try, climb}

module _ {Regexp S : Type 0} where
  -- The first match, or `m` if there is none.
  abbrev pub or_else :
      Option (IndexedRule Regexp S) → IndexedRule Regexp S → Option (IndexedRule Regexp S)
  or_else none m = some m
  or_else (some f) m = some f

  -- Every match found so far is before `n`.
  abbrev pub Under : ℕ → Option (IndexedRule Regexp S) → Type 0
  Under n none = Unit
  Under n (some f) = f.order < n

  abbrev pub AllUnder : ℕ → List (Text × IndexedRule Regexp S) → Type 0
  AllUnder n domains = (k : Text) → Under n (find k domains)

  pub earlier_of-or_else :
      (a x : Option (IndexedRule Regexp S)) (m : IndexedRule Regexp S)
      → Under m.order x
      → earlier_of (or_else a m) x ≡ or_else (earlier_of a x) m
  earlier_of-or_else a none m u = refl
  earlier_of-or_else none (some x) m u =
      if_intro (λ o. o ≡ some x) (ltb x.order m.order) (λ _. refl) (λ e. absurd (ground (arith, e)))
  earlier_of-or_else (some f) (some x) m u =
      if_intro (λ o. o ≡ or_else o m) (ltb x.order f.order) (λ _. refl) (λ _. refl)

  pub earlier-later :
      (a : Option (IndexedRule Regexp S)) (m : IndexedRule Regexp S)
      → Under m.order a
      → earlier_of a (some m) ≡ or_else a m
  earlier-later none m u = refl
  earlier-later (some f) m u =
      if_intro (λ o. o ≡ some f) (ltb m.order f.order) (λ e. absurd (ground (arith, e))) (λ _. refl)

  pub earlier_of-Under :
      (n : ℕ) (a x : Option (IndexedRule Regexp S))
      → Under n a
      → Under n x
      → Under n (earlier_of a x)
  earlier_of-Under n a none u v = u
  earlier_of-Under n none (some x) u v = v
  earlier_of-Under n (some f) (some x) u v =
      if_intro (Under n) (ltb x.order f.order) (λ _. v) (λ _. u)

  module _ (k : Text) (m : IndexedRule Regexp S) (domains : List (Text × IndexedRule Regexp S))
      (some_key : k ≢ []) (new_key : find k domains ≡ none) (under : AllUnder m.order domains) where
    abbrev pub more : List (Text × IndexedRule Regexp S)
    more = (k, m) ∷ domains

    pub try-Under :
        (s : Text) (a : Option (IndexedRule Regexp S))
        → Under m.order a
        → Under m.order (try domains s a)
    try-Under [] a u = u
    try-Under (c ∷ s) a u = earlier_of-Under m.order a (find (c ∷ s) domains) u (under (c ∷ s))

    none_at : (s : Text) → s ≡ k → find s domains ≡ none
    none_at s e = ap (λ z. find z domains) e ∙ new_key

    merged_twice :
        (a : Option (IndexedRule Regexp S))
        → Under m.order a
        → earlier_of (or_else a m) (some m) ≡ or_else a m
    merged_twice none u = if_intro (λ o. o ≡ some m) (ltb m.order m.order) (λ _. refl) (λ _. refl)
    merged_twice (some f) u = earlier-later (some f) m u

    other_key : (s : Text) → (s == k) ≡ false → (k == s) ≡ false
    other_key s e = elim (Bool-cases (k == s)) [
      | inl same ↦ absurd (ground (arith, e, (==_iff s k).1 (sym ((==_iff k s).0 same))))
      | inr other ↦ other
    ]

    try-merged :
        (s : Text) (a : Option (IndexedRule Regexp S))
        → Under m.order a
        → try more s (or_else a m) ≡ or_else (try domains s a) m
    unfolding find
    try-merged [] a u = refl
    try-merged (c ∷ s) a u = elim (Bool-cases (k == c ∷ s)) [
      | inl e ↦ rw (e, none_at (c ∷ s) (sym ((==_iff k (c ∷ s)).0 e))) (merged_twice a u)
      | inr e ↦ rw e (earlier_of-or_else a (find (c ∷ s) domains) m (under (c ∷ s)))
    ]

    pub try-added :
        (s : Text) (a : Option (IndexedRule Regexp S))
        → Under m.order a
        → try more s a ≡ (if s == k then or_else (try domains s a) m else try domains s a)
    unfolding find
    try-added [] a u = elim (Bool-cases ([] == k)) [
      | inl e ↦ absurd (some_key (sym ((==_iff [] k).0 e)))
      | inr e ↦ rw e refl
    ]
    try-added (c ∷ s) a u = elim (Bool-cases ((c ∷ s) == k)) [
      | inl e ↦
          let same = (==_iff (c ∷ s) k).0 e in
          rw (e, (==_iff k (c ∷ s)).1 (sym same), none_at (c ∷ s) same) (earlier-later a m u)
      | inr e ↦ rw (e, other_key (c ∷ s) e) refl
    ]

    pub climb-merged :
        (s : Text) (a : Option (IndexedRule Regexp S))
        → Under m.order a
        → climb more s (or_else a m) ≡ or_else (climb domains s a) m
    unfolding climb
    climb-merged [] a u = refl
    climb-merged (c ∷ s) a u = elim (Bool-cases (c == b'.')) [
      | inl e ↦ rw (e, try-merged s a u) (climb-merged s (try domains s a) (try-Under s a u))
      | inr e ↦ rw e (climb-merged s a u)
    ]

    pub climb-added :
        (s : Text) (a : Option (IndexedRule Regexp S))
        → Under m.order a
        → climb more s a
          ≡ (if has_suffix s (b'.' ∷ k) then or_else (climb domains s a) m else climb domains s a)
    unfolding climb
    climb-added [] a u = refl
    climb-added (c ∷ s) a u = elim (Bool-cases (c == b'.')) [
      | inl e ↦ elim (Bool-cases (s == k)) [
        | inl f ↦
            let t : try more s a ≡ or_else (try domains s a) m = try-added s a u ∙ rw f refl in
            rw (e, t, f) (climb-merged s (try domains s a) (try-Under s a u))
        | inr f ↦
            let t : try more s a ≡ try domains s a = try-added s a u ∙ rw f refl in
            rw (e, t, f) (climb-added s (try domains s a) (try-Under s a u))
      ]
      | inr e ↦ rw e (climb-added s a u)
    ]
