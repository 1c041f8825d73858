-- ===== src/Filter/Indexes.antt =====
-- The indexes over the rules of all sources, and the search in them
-- (webgui/internal/filter/filter.go, buildRuleIndexes and firstIndexedMatch).
use resolix.Common.{
  ℕ, ◌+◌, Bool, Option, none, some, List, [], ◌∷◌, ◌++◌, ltb, ◌==◌, nat_comparable, list_comparable,
  if◌then◌else◌, Text, find,
}
use resolix.Filter.Rules.{Kind, of_domain, of_regex, Rule, matches}

-- A rule with its source, which is any type of pointers, and its place in the order of all rules.
pub record IndexedRule (Regexp S : Type 0) : Type 0 where
  pub rule : Rule Regexp
  pub source : S
  pub order : ℕ

-- The index of the allow rules, or of the block rules, with the next order.
pub record Index (Regexp S : Type 0) : Type 0 where
  pub domains : List (Text × IndexedRule Regexp S)
  pub regex : List (IndexedRule Regexp S)
  pub next : ℕ

module _ {Regexp S : Type 0} where
  abbrev pub add_domain :
      Index Regexp S → Text → IndexedRule Regexp S → Option (IndexedRule Regexp S) → Index Regexp S
  add_domain ix d match none = record ix { domains = (d, match) ∷ ix.domains }
  add_domain ix d match (some before) = ix

  abbrev pub add_kind : Index Regexp S → Kind Regexp → IndexedRule Regexp S → Index Regexp S
  add_kind ix (of_regex re) match = record ix { regex = ix.regex ++ match ∷ [] }
  add_kind ix (of_domain d) match = add_domain ix d match (find d ix.domains)

  -- One rule in the loop of buildRuleIndexes.
  unfoldable pub add_rule : Index Regexp S → S → Rule Regexp → Index Regexp S
  add_rule ix src r =
      add_kind (record ix { next = ix.next + 1 }) r.kind
        (record { rule = r; source = src; order = ix.next })

  unfoldable pub add_rules : Index Regexp S → S → List (Rule Regexp) → Index Regexp S
  add_rules ix src [] = ix
  add_rules ix src (r ∷ rs) = add_rules (add_rule ix src r) src rs

  -- buildRuleIndexes, for one of the two lists of each source.
  unfoldable pub build_rule_index : Index Regexp S → List (S × List (Rule Regexp)) → Index Regexp S
  build_rule_index ix [] = ix
  build_rule_index ix ((src, rs) ∷ sources) = build_rule_index (add_rules ix src rs) sources

  abbrev pub empty_index : Index Regexp S
  empty_index = record { domains = []; regex = []; next = 0 }

  -- Keeps the match that comes first.
  abbrev pub earlier :
      Option (IndexedRule Regexp S) → IndexedRule Regexp S → Option (IndexedRule Regexp S)
  earlier none match = some match
  earlier (some first) match = if ltb match.order first.order then some match else some first

  abbrev pub earlier_of :
      Option (IndexedRule Regexp S) → Option (IndexedRule Regexp S) → Option (IndexedRule Regexp S)
  earlier_of first none = first
  earlier_of first (some match) = earlier first match

  -- The look-up of one candidate: the empty one ends the loop before it.
  abbrev pub try :
      List (Text × IndexedRule Regexp S)
      → Text
      → Option (IndexedRule Regexp S)
      → Option (IndexedRule Regexp S)
  try domains [] first = first
  try domains (c ∷ s) first = earlier_of first (find (c ∷ s) domains)

  -- The loop over the candidates that stand behind a dot.
  unfoldable pub climb :
      List (Text × IndexedRule Regexp S)
      → Text
      → Option (IndexedRule Regexp S)
      → Option (IndexedRule Regexp S)
  climb domains [] first = first
  climb domains (c ∷ s) first = climb domains s (if c == b'.' then try domains s first else first)

  module _ (match_string : Regexp → Text → Bool) where
    unfoldable pub first_regex :
        Text
        → List (IndexedRule Regexp S)
        → Option (IndexedRule Regexp S)
        → Option (IndexedRule Regexp S)
    first_regex domain [] first = first
    first_regex domain (match ∷ rest) first =
        first_regex domain rest
          (if matches match_string match.rule domain then earlier first match else first)

    -- firstIndexedMatch
    unfoldable pub first_indexed_match : Text → Index Regexp S → Option (IndexedRule Regexp S)
    first_indexed_match domain ix =
        first_regex domain ix.regex (climb ix.domains domain (try ix.domains domain none))
