-- ===== src/Filter/Tests.antt =====
-- The filter at concrete rules, and the theorem at rules where its hypotheses hold.
use resolix.Common.{
  ◌+◌, true, ℕ, ◌≡◌, refl, Bool, Option, none, some, List, [], ◌∷◌, Text, bytes, ◌==◌,
  nat_comparable, list_comparable, find, All,
}
use resolix.Filter.Rules.{of_domain, of_regex, Rule, match_domain_suffix}
use resolix.Filter.Indexes.{
  IndexedRule, empty_index, add_rule, add_rules, build_rule_index, climb, first_regex,
  first_indexed_match,
}
use resolix.Filter.Decision.{Engine, explain, match_domain, spelled, explain-match_domain}
use resolix.Filter.Search.{scan}
use resolix.Filter.Equivalence.{listing, HasDomain, first_indexed_match-scan}

-- An expression matches exactly one text.
abbrev is_text : Text → Text → Bool
is_text re domain = domain == re

abbrev parent : Rule Text
parent = record { raw = bytes "||b.c^"; kind = of_domain (bytes "b.c") }

abbrev child : Rule Text
child = record { raw = bytes "a.b.c"; kind = of_domain (bytes "a.b.c") }

abbrev whole : Rule Text
whole = record { raw = bytes "/x.b.c/"; kind = of_regex (bytes "x.b.c") }

-- Two sources, named by numbers.
abbrev sources : List (ℕ × List (Rule Text))
sources = (1, child ∷ whole ∷ []) ∷ (2, parent ∷ child ∷ []) ∷ []

program : Unit {0}
unfolding match_domain_suffix add_rule add_rules build_rule_index climb first_regex
    first_indexed_match find
program = tt

abbrev searched : Text → Option (IndexedRule Text ℕ)
searched domain = first_indexed_match is_text domain (build_rule_index empty_index sources)

searched-some :
    (searched (bytes "x.b.c") ≡ some (record { rule = whole; source = 1; order = 1 }))
    × (searched (bytes "y.b.c") ≡ some (record { rule = parent; source = 2; order = 2 }))
    × (searched (bytes "xb.c") ≡ none)
unfolding program
searched-some = (refl, refl, refl)

sources-HasDomain : All (λ s. All (λ r. HasDomain r.kind) s.1) sources
sources-HasDomain = (((λ e. cc), (tt, tt)), (((λ e. cc), ((λ e. cc), tt)), tt))

first_indexed_match-scan_example :
    first_indexed_match is_text (bytes "x.b.c") (build_rule_index empty_index sources)
    ≡ scan is_text (bytes "x.b.c") (listing 0 sources)
first_indexed_match-scan_example =
    first_indexed_match-scan is_text sources (bytes "x.b.c") sources-HasDomain

-- The parent domain is blocked, and one child is allowed.
abbrev engine : Engine Text ℕ
engine = record {
  allow_index = build_rule_index empty_index ((3, child ∷ []) ∷ []);
  block_index = build_rule_index empty_index sources;
  allowed_total = 0;
  blocked_total = 0;
}

abbrev digit : ℕ → Text
digit n = (48 + n) ∷ []

explain-match_domain_example :
    (explain is_text digit engine (bytes " A.b.c. ")).result
    ≡ (match_domain is_text digit engine (spelled (bytes " A.b.c. "))).1
explain-match_domain_example = explain-match_domain is_text digit engine (bytes " A.b.c. ")

explain-child :
    ((explain is_text digit engine (bytes " A.b.c. ")).result.allowed ≡ true)
    × ((explain is_text digit engine (bytes "A.b.c")).override ≡ true)
    × ((match_domain is_text digit engine (bytes "x.b.c")).1.reason ≡ bytes "FilteredByRegex")
unfolding program explain match_domain
explain-child = (refl, refl, refl)
