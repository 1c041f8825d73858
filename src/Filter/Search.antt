-- ===== src/Filter/Search.antt =====
-- The indexed search against a search of the rules one after the other
-- (webgui/internal/filter/filter.go, firstIndexedMatch on what buildRuleIndexes made).
use resolix.Common.{
  ℕ, ◌+◌, ◌<◌, ◌≡◌, ◌≢◌, refl, ap, ◌∙◌, Bool, true, false, Bool-cases, inl, inr, Option, none, some,
  List, [], ◌∷◌, ◌++◌, ◌==◌, nat_comparable, list_comparable, if◌then◌else◌, Text, find, All,
  All-append, All-map, arith, if_intro,
}
use resolix.Filter.Rules.{Rule, matches, match_domain_suffix}
use resolix.Filter.Indexes.{
  IndexedRule, Index, earlier, try, climb, first_regex, first_indexed_match,
}
use resolix.Filter.First.{
  or_else, Under, AllUnder, earlier_of-or_else, earlier-later, earlier_of-Under, try-added,
  climb-merged, climb-added,
}
use resolix.Filter.Built.{Under-widen, climb-Under}

module _ {Regexp S : Type 0} (match_string : Regexp → Text → Bool) where
  -- The rules one after the other: the first that matches.
  abbrev pub scan : Text → List (IndexedRule Regexp S) → Option (IndexedRule Regexp S)
  scan domain [] = none
  scan domain (e ∷ es) = if matches match_string e.rule domain then some e else scan domain es

  pub scan-append :
      (d : Text) (es : List (IndexedRule Regexp S)) (e : IndexedRule Regexp S)
      → scan d (es ++ e ∷ [])
        ≡ (if matches match_string e.rule d then or_else (scan d es) e else scan d es)
  scan-append d [] e = refl
  scan-append d (x ∷ es) e = elim (Bool-cases (matches match_string x.rule d)) [
    | inl h ↦
        rw h (if_intro (λ o. some x ≡ o) (matches match_string e.rule d) (λ _. refl) (λ _. refl))
    | inr h ↦ rw h (scan-append d es e)
  ]

  first_regex-Under :
      (n : ℕ) (d : Text) (rs : List (IndexedRule Regexp S)) (a : Option (IndexedRule Regexp S))
      → All (λ e. e.order < n) rs
      → Under n a
      → Under n (first_regex match_string d rs a)
  unfolding first_regex
  first_regex-Under n d [] a l u = u
  first_regex-Under n d (r ∷ rs) a l u =
      first_regex-Under n d rs (if matches match_string r.rule d then earlier a r else a) l.1 (
        if_intro (Under n) (matches match_string r.rule d)
          (λ _. earlier_of-Under n a (some r) u l.0) (λ _. u))

  first_regex-or_else :
      (d : Text) (rs : List (IndexedRule Regexp S)) (a : Option (IndexedRule Regexp S))
      (m : IndexedRule Regexp S)
      → All (λ e. e.order < m.order) rs
      → first_regex match_string d rs (or_else a m) ≡ or_else (first_regex match_string d rs a) m
  unfolding first_regex
  first_regex-or_else d [] a m l = refl
  first_regex-or_else d (r ∷ rs) a m l = elim (Bool-cases (matches match_string r.rule d)) [
    | inl h ↦
        rw (h, earlier_of-or_else a (some r) m l.0) (first_regex-or_else d rs (earlier a r) m l.1)
    | inr h ↦ rw h (first_regex-or_else d rs a m l.1)
  ]

  first_regex-append :
      (d : Text) (rs : List (IndexedRule Regexp S)) (a : Option (IndexedRule Regexp S))
      (m : IndexedRule Regexp S)
      → first_regex match_string d (rs ++ m ∷ []) a ≡ (
          if matches match_string m.rule d
          then earlier (first_regex match_string d rs a) m
          else first_regex match_string d rs a)
  unfolding first_regex
  first_regex-append d [] a m = refl
  first_regex-append d (r ∷ rs) a m =
      first_regex-append d rs (if matches match_string r.rule d then earlier a r else a) m

  -- The index stands for the listed rules.
  pub record Represents (ix : Index Regexp S) (es : List (IndexedRule Regexp S)) : Type 0 where
    pub domains_under : AllUnder ix.next ix.domains
    pub regex_under : All (λ e. e.order < ix.next) ix.regex
    pub found : (d : Text) → first_indexed_match match_string d ix ≡ scan d es

  -- The state of the search between the two loops.
  abbrev pub top : List (Text × IndexedRule Regexp S) → Text → Option (IndexedRule Regexp S)
  top domains d = climb domains d (try domains d none)

  try-none :
      (n : ℕ) (domains : List (Text × IndexedRule Regexp S)) (d : Text)
      → AllUnder n domains
      → Under n (try domains d none)
  try-none n domains [] u = tt
  try-none n domains (c ∷ d) u = earlier_of-Under n none (find (c ∷ d) domains) tt (u (c ∷ d))

  pub top-Under :
      (n : ℕ) (domains : List (Text × IndexedRule Regexp S)) (d : Text)
      → AllUnder n domains
      → Under n (top domains d)
  top-Under n domains d u = climb-Under domains n d (try domains d none) u (try-none n domains d u)

  pub found-Under :
      (d : Text) (ix : Index Regexp S)
      → AllUnder ix.next ix.domains
      → All (λ e. e.order < ix.next) ix.regex
      → Under ix.next (first_indexed_match match_string d ix)
  unfolding first_indexed_match
  found-Under d ix u l =
      first_regex-Under ix.next d ix.regex (top ix.domains d) l (top-Under ix.next ix.domains d u)

  abbrev pub indexed : Index Regexp S → S → Rule Regexp → IndexedRule Regexp S
  indexed ix src r = record { rule = r; source = src; order = ix.next }

  pub add_regex-Represents :
      (ix : Index Regexp S) (es : List (IndexedRule Regexp S)) (src : S) (r : Rule Regexp)
      → Represents ix es
      → Represents
          (record ix { next = ix.next + 1; regex = ix.regex ++ indexed ix src r ∷ [] })
          (es ++ indexed ix src r ∷ [])
  unfolding first_indexed_match
  add_regex-Represents ix es src r v = record {
    domains_under = λ k. Under-widen ix.next (find k ix.domains) (v.domains_under k);
    regex_under =
        All-append (λ (e : IndexedRule Regexp S). e.order < ix.next + 1) ix.regex (m ∷ [])
          (All-map ix.regex (λ e l. omega (arith, l)) v.regex_under) (omega arith, tt);
    found = λ d.
        first_regex-append d ix.regex (top ix.domains d) m
        ∙ elim (Bool-cases (matches match_string r d)) [
          | inl h ↦
              rw (h, scan-append d es m)
                (rw h (
                  earlier-later (first_indexed_match match_string d ix) m
                    (found-Under d ix v.domains_under v.regex_under)
                  ∙ ap (λ o. or_else o m) (v.found d)))
          | inr h ↦ rw (h, scan-append d es m) (rw h (v.found d))
        ];
  }
    where
      m : IndexedRule Regexp S
      m = indexed ix src r

  -- What a search finds after a domain has been added, by whether the rule matches.
  pub hit-or_else :
      (b : Bool) (x y : Option (IndexedRule Regexp S)) (m : IndexedRule Regexp S) (d : Text)
      (rs : List (IndexedRule Regexp S))
      → All (λ e. e.order < m.order) rs
      → y ≡ (if b then or_else x m else x)
      → first_regex match_string d rs y ≡ (
          if b
          then or_else (first_regex match_string d rs x) m
          else first_regex match_string d rs x)
  hit-or_else true x y m d rs l e =
      ap (first_regex match_string d rs) e ∙ first_regex-or_else d rs x m l
  hit-or_else false x y m d rs l e = ap (first_regex match_string d rs) e

  pub top-added :
      (k : Text) (m : IndexedRule Regexp S) (domains : List (Text × IndexedRule Regexp S))
      (d : Text)
      → k ≢ []
      → find k domains ≡ none
      → AllUnder m.order domains
      → top ((k, m) ∷ domains) d
        ≡ (if match_domain_suffix k d then or_else (top domains d) m else top domains d)
  unfolding match_domain_suffix
  top-added k m domains d some_key new u = elim (Bool-cases (d == k)) [
    | inl e ↦
        rw (e, try-added k m domains some_key new u d none tt)
          (rw e (
            climb-merged k m domains some_key new u d (try domains d none)
              (try-none m.order domains d u)))
    | inr e ↦
        rw (e, try-added k m domains some_key new u d none tt)
          (rw e (
            climb-added k m domains some_key new u d (try domains d none)
              (try-none m.order domains d u)))
  ]
