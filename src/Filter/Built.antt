-- ===== src/Filter/Built.antt =====
-- Building the indexes (webgui/internal/filter/filter.go, buildRuleIndexes): each rule that is added
-- is found only where no rule before it matches.
use mathlib.Core.Path.{subst}
use resolix.Common.{
  ℕ, ◌+◌, ◌≡◌, ◌≢◌, refl, sym, true, ◌&&◌, Bool-cases, inl, inr, Option, none, some, List, [], ◌∷◌,
  ltb, ◌==◌, ==_iff, nat_comparable, list_comparable, if◌then◌else◌, Text, find, arith, if_intro,
  has_suffix,
}
use resolix.Filter.Indexes.{IndexedRule, earlier_of, try, climb}
use resolix.Filter.First.{or_else, Under, AllUnder, earlier_of-Under}

module _ {Regexp S : Type 0} where
  -- Some rule was found.
  abbrev pub IsSome : Option (IndexedRule Regexp S) → Type 0
  IsSome none = Unit → ⊥
  IsSome (some f) = Unit

  pub or_else-IsSome :
      (a : Option (IndexedRule Regexp S)) (m : IndexedRule Regexp S) → IsSome a → or_else a m ≡ a
  or_else-IsSome none m i = absurd (i tt)
  or_else-IsSome (some f) m i = refl

  earlier_of-IsSome : (a x : Option (IndexedRule Regexp S)) → IsSome a → IsSome (earlier_of a x)
  earlier_of-IsSome a none i = i
  earlier_of-IsSome none (some x) i = tt
  earlier_of-IsSome (some f) (some x) i = if_intro IsSome (ltb x.order f.order) (λ _. tt) (λ _. tt)

  earlier_of-found : (a x : Option (IndexedRule Regexp S)) → IsSome x → IsSome (earlier_of a x)
  earlier_of-found a none i = absurd (i tt)
  earlier_of-found none (some x) i = tt
  earlier_of-found (some f) (some x) i = if_intro IsSome (ltb x.order f.order) (λ _. tt) (λ _. tt)

  pub Under-widen : (n : ℕ) (a : Option (IndexedRule Regexp S)) → Under n a → Under (n + 1) a
  Under-widen n none u = tt
  Under-widen n (some f) u = omega (arith, u)

  module _ (domains : List (Text × IndexedRule Regexp S)) where
    try-IsSome :
        (s : Text) (a : Option (IndexedRule Regexp S)) → IsSome a → IsSome (try domains s a)
    try-IsSome [] a i = i
    try-IsSome (c ∷ s) a i = earlier_of-IsSome a (find (c ∷ s) domains) i

    pub climb-IsSome :
        (s : Text) (a : Option (IndexedRule Regexp S)) → IsSome a → IsSome (climb domains s a)
    unfolding climb
    climb-IsSome [] a i = i
    climb-IsSome (c ∷ s) a i =
        climb-IsSome s (if c == b'.' then try domains s a else a)
          (if_intro IsSome (c == b'.') (λ _. try-IsSome s a i) (λ _. i))

    pub climb-Under :
        (n : ℕ) (s : Text) (a : Option (IndexedRule Regexp S))
        → AllUnder n domains
        → Under n a
        → Under n (climb domains s a)
    unfolding climb
    climb-Under n [] a d u = u
    climb-Under n (c ∷ s) a d u =
        climb-Under n s (if c == b'.' then try domains s a else a) d
          (if_intro (Under n) (c == b'.') (λ _. try_under s) (λ _. u))
      where
        try_under : (s : Text) → Under n (try domains s a)
        try_under [] = u
        try_under (b ∷ s) = earlier_of-Under n a (find (b ∷ s) domains) u (d (b ∷ s))

    module _ (k : Text) (some_key : k ≢ []) (known : IsSome (find k domains)) where
      pub try-found :
          (s : Text) (a : Option (IndexedRule Regexp S)) → s ≡ k → IsSome (try domains s a)
      try-found [] a e = absurd (some_key (sym e))
      try-found (c ∷ s) a e =
          earlier_of-found a (find (c ∷ s) domains)
            (subst (λ z. IsSome (find z domains)) (sym e) known)

      pub climb-found :
          (s : Text) (a : Option (IndexedRule Regexp S))
          → has_suffix s (b'.' ∷ k) ≡ true
          → IsSome (climb domains s a)
      unfolding climb
      climb-found [] a h = ground (arith, h)
      climb-found (c ∷ s) a h = elim (Bool-cases (c == b'.' && s == k)) [
        | inl e ↦
            let dot : (c == b'.') ≡ true = ground (arith, e) in
            let key : (s == k) ≡ true = ground (arith, e) in
            rw dot (climb-IsSome s (try domains s a) (try-found s a ((==_iff s k).0 key)))
        | inr e ↦ climb-found s (if c == b'.' then try domains s a else a) (ground (arith, h, e))
      ]
