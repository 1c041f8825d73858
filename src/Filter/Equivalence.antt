-- ===== src/Filter/Equivalence.antt =====
-- The indexes of all sources answer as the rules do one after the other
-- (webgui/internal/filter/filter.go, firstIndexedMatch on what buildRuleIndexes made).
use mathlib.Core.Path.{subst}
use mathlib.Core.List.{append-nil, append_assoc}
use resolix.Common.{
  ℕ, ◌+◌, ◌≡◌, ◌≢◌, refl, ap, ap₂, sym, ◌∙◌, Bool, true, Bool-cases, inl, inr, Option, none, some,
  List, [], ◌∷◌, ◌++◌, ltb, ◌==◌, ==_iff, nat_comparable, list_comparable, if◌then◌else◌, Text,
  find, All, All-map, arith, if_intro, length,
}
use resolix.Filter.Rules.{Kind, of_domain, of_regex, Rule, matches, match_domain_suffix}
use resolix.Filter.Indexes.{
  IndexedRule, Index, add_domain, add_kind, add_rule, add_rules, build_rule_index, empty_index,
  earlier, try, climb, first_regex, first_indexed_match,
}
use resolix.Filter.First.{or_else, Under}
use resolix.Filter.Built.{IsSome, or_else-IsSome, Under-widen, climb-found, try-found, climb-IsSome}
use resolix.Filter.Search.{
  scan, scan-append, Represents, top, top-added, hit-or_else, indexed, add_regex-Represents,
}

-- What validDomain makes sure of.
abbrev pub HasDomain : {Regexp : Type 0} → Kind Regexp → Type 0
HasDomain (of_domain d) = d ≢ []
HasDomain (of_regex re) = Unit

module _ {Regexp S : Type 0} where
  -- The rules of all sources in their order.
  abbrev pub number : ℕ → S → List (Rule Regexp) → List (IndexedRule Regexp S)
  number n src [] = []
  number n src (r ∷ rs) = record { rule = r; source = src; order = n } ∷ number (n + 1) src rs

  abbrev pub listing : ℕ → List (S × List (Rule Regexp)) → List (IndexedRule Regexp S)
  listing n [] = []
  listing n ((src, rs) ∷ sources) = number n src rs ++ listing (n + length rs) sources

module _ {Regexp S : Type 0} (match_string : Regexp → Text → Bool) where
  same_found :
      (d : Text) (es : List (IndexedRule Regexp S)) (m : IndexedRule Regexp S)
      (x : Option (IndexedRule Regexp S)) (b : Bool)
      → matches match_string m.rule d ≡ b
      → x ≡ scan match_string d es
      → (if b then or_else x m else x) ≡ scan match_string d (es ++ m ∷ [])
  same_found d es m x b h e =
      ap₂ (λ c o. if c then or_else o m else o) (sym h) e ∙ sym (scan-append match_string d es m)

  first_regex-IsSome :
      (d : Text) (rs : List (IndexedRule Regexp S)) (a : Option (IndexedRule Regexp S))
      → IsSome a
      → IsSome (first_regex match_string d rs a)
  unfolding first_regex
  first_regex-IsSome d [] a i = i
  first_regex-IsSome d (r ∷ rs) none i = absurd (i tt)
  first_regex-IsSome d (r ∷ rs) (some f) i =
      first_regex-IsSome d rs (if matches match_string r.rule d then earlier (some f) r else some f)
        (if_intro IsSome (matches match_string r.rule d)
          (λ _. if_intro IsSome (ltb r.order f.order) (λ _. tt) (λ _. tt)) (λ _. tt))

  top-IsSome :
      (k : Text) (domains : List (Text × IndexedRule Regexp S)) (d : Text)
      → k ≢ []
      → IsSome (find k domains)
      → match_domain_suffix k d ≡ true
      → IsSome (top match_string domains d)
  unfolding match_domain_suffix
  top-IsSome k domains d some_key known h = elim (Bool-cases (d == k)) [
    | inl e ↦
        climb-IsSome domains d (try domains d none)
          (try-found domains k some_key known d none ((==_iff d k).0 e))
    | inr e ↦ climb-found domains k some_key known d (try domains d none) (ground (arith, h, e))
  ]

  -- A second rule for a domain never comes first.
  found_before :
      (ix : Index Regexp S) (m : IndexedRule Regexp S) (k d : Text)
      → k ≢ []
      → IsSome (find k ix.domains)
      → first_indexed_match match_string d ix ≡ (
          if match_domain_suffix k d
          then or_else (first_indexed_match match_string d ix) m
          else first_indexed_match match_string d ix)
  unfolding first_indexed_match
  found_before ix m k d some_key known = elim (Bool-cases (match_domain_suffix k d)) [
    | inl h ↦ rw h (
        sym (
          or_else-IsSome (first_indexed_match match_string d ix) m (
            first_regex-IsSome d ix.regex (top match_string ix.domains d)
              (top-IsSome k ix.domains d some_key known h))))
    | inr h ↦ rw h refl
  ]

  add_domain-Represents :
      (ix : Index Regexp S) (es : List (IndexedRule Regexp S)) (src : S) (raw k : Text)
      (before : Option (IndexedRule Regexp S))
      → k ≢ []
      → find k ix.domains ≡ before
      → Represents match_string ix es
      → let m = indexed match_string ix src (record { raw = raw; kind = of_domain k }) in
        Represents match_string
          (add_domain (record ix { next = ix.next + 1 }) k m before)
          (es ++ m ∷ [])
  unfolding first_indexed_match find
  add_domain-Represents ix es src raw k none some_key new v = record {
    domains_under = λ j.
        if_intro (Under (ix.next + 1)) (k == j) (λ _. omega arith)
          (λ _. Under-widen ix.next (find j ix.domains) (v.domains_under j));
    regex_under = All-map ix.regex (λ e l. omega (arith, l)) v.regex_under;
    found = λ d.
        hit-or_else match_string (match_domain_suffix k d) (top match_string ix.domains d) _ m d
          ix.regex v.regex_under
          (top-added match_string k m ix.domains d some_key new v.domains_under)
        ∙ same_found d es m (first_indexed_match match_string d ix) (match_domain_suffix k d) refl
            (v.found d);
  }
    where
      m : IndexedRule Regexp S
      m = indexed match_string ix src (record { raw = raw; kind = of_domain k })
  add_domain-Represents ix es src raw k (some b) some_key old v = record {
    domains_under = λ j. Under-widen ix.next (find j ix.domains) (v.domains_under j);
    regex_under = All-map ix.regex (λ e l. omega (arith, l)) v.regex_under;
    found = λ d.
        found_before ix m k d some_key (subst IsSome (sym old) tt)
        ∙ same_found d es m (first_indexed_match match_string d ix) (match_domain_suffix k d) refl
            (v.found d);
  }
    where
      m : IndexedRule Regexp S
      m = indexed match_string ix src (record { raw = raw; kind = of_domain k })

  add_rule-Represents :
      (ix : Index Regexp S) (es : List (IndexedRule Regexp S)) (src : S) (raw : Text)
      (kind : Kind Regexp)
      → HasDomain kind
      → Represents match_string ix es
      → Represents match_string
          (add_rule ix src (record { raw = raw; kind = kind }))
          (es ++ indexed match_string ix src (record { raw = raw; kind = kind }) ∷ [])
  unfolding add_rule
  add_rule-Represents ix es src raw (of_domain k) h v =
      add_domain-Represents ix es src raw k (find k ix.domains) h refl v
  add_rule-Represents ix es src raw (of_regex re) h v =
      add_regex-Represents match_string ix es src (record { raw = raw; kind = of_regex re }) v

  add_domain-next :
      (ix : Index Regexp S) (d : Text) (m : IndexedRule Regexp S)
      (o : Option (IndexedRule Regexp S))
      → (add_domain ix d m o).next ≡ ix.next
  add_domain-next ix d m none = refl
  add_domain-next ix d m (some b) = refl

  add_kind-next :
      (ix : Index Regexp S) (kind : Kind Regexp) (m : IndexedRule Regexp S)
      → (add_kind ix kind m).next ≡ ix.next
  add_kind-next ix (of_regex re) m = refl
  add_kind-next ix (of_domain d) m = add_domain-next ix d m (find d ix.domains)

  add_rule-next :
      (ix : Index Regexp S) (src : S) (r : Rule Regexp) → (add_rule ix src r).next ≡ ix.next + 1
  unfolding add_rule
  add_rule-next ix src r =
      add_kind-next (record ix { next = ix.next + 1 }) r.kind (indexed match_string ix src r)

  add_rules-next :
      (rs : List (Rule Regexp)) (ix : Index Regexp S) (src : S)
      → (add_rules ix src rs).next ≡ ix.next + length rs
  unfolding add_rules
  add_rules-next [] ix src = omega arith
  add_rules-next (r ∷ rs) ix src =
      omega (arith, add_rules-next rs (add_rule ix src r) src, add_rule-next ix src r)

  add_rules-Represents :
      (rs : List (Rule Regexp)) (ix : Index Regexp S) (es : List (IndexedRule Regexp S)) (src : S)
      → All (λ r. HasDomain r.kind) rs
      → Represents match_string ix es
      → Represents match_string (add_rules ix src rs) (es ++ number ix.next src rs)
  unfolding add_rules
  add_rules-Represents [] ix es src h v = rw (append-nil es) v
  add_rules-Represents (r ∷ rs) ix es src h v =
      subst (Represents match_string (add_rules (add_rule ix src r) src rs))
        (append_assoc es (m ∷ []) (number (add_rule ix src r).next src rs)
          ∙ ap (λ n. es ++ m ∷ number n src rs) (add_rule-next ix src r))
        (add_rules-Represents rs (add_rule ix src r) (es ++ m ∷ []) src h.1
          (add_rule-Represents ix es src r.raw r.kind h.0 v))
    where
      m : IndexedRule Regexp S
      m = indexed match_string ix src r

  build-Represents :
      (sources : List (S × List (Rule Regexp))) (ix : Index Regexp S)
      (es : List (IndexedRule Regexp S))
      → All (λ s. All (λ r. HasDomain r.kind) s.1) sources
      → Represents match_string ix es
      → Represents match_string (build_rule_index ix sources) (es ++ listing ix.next sources)
  unfolding build_rule_index
  build-Represents [] ix es h v = rw (append-nil es) v
  build-Represents ((src, rs) ∷ sources) ix es h v =
      let ix' = add_rules ix src rs in
      subst (Represents match_string (build_rule_index ix' sources))
        (append_assoc es (number ix.next src rs) (listing ix'.next sources)
          ∙ ap (λ n. es ++ (number ix.next src rs ++ listing n sources)) (add_rules-next rs ix src))
        (build-Represents sources ix' (es ++ number ix.next src rs) h.1
          (add_rules-Represents rs ix es src h.0 v))

  climb-empty : (d : Text) → climb {Regexp = Regexp} {S = S} [] d none ≡ none
  unfolding climb find
  climb-empty [] = refl
  climb-empty (c ∷ []) =
      if_intro (λ o. climb {Regexp = Regexp} {S = S} [] [] o ≡ none) (c == b'.') (λ _. refl)
        (λ _. refl)
  climb-empty (c ∷ b ∷ d) =
      if_intro (λ o. climb {Regexp = Regexp} {S = S} [] (b ∷ d) o ≡ none) (c == b'.')
        (λ _. climb-empty (b ∷ d)) (λ _. climb-empty (b ∷ d))

  empty-Represents : Represents {Regexp = Regexp} {S = S} match_string empty_index []
  unfolding first_indexed_match first_regex find
  empty-Represents = record {
    domains_under = λ k. tt;
    regex_under = tt;
    found = elim [ [] ↦ climb-empty [] | c ∷ d ↦ climb-empty (c ∷ d) ];
  }

  -- Whatever the sources, their rules and the domain are, where no rule has an empty domain: the
  -- search in the indexes finds the rule that a search of all rules, in the order of the sources
  -- and of the lines in each, finds first, with its source, and none where no rule matches.
  pub first_indexed_match-scan :
      (sources : List (S × List (Rule Regexp))) (domain : Text)
      → All (λ s. All (λ r. HasDomain r.kind) s.1) sources
      → first_indexed_match match_string domain (build_rule_index empty_index sources)
        ≡ scan match_string domain (listing 0 sources)
  first_indexed_match-scan sources domain h =
      (build-Represents sources empty_index [] h empty-Represents).found domain
