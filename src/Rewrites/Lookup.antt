-- ===== src/Rewrites/Lookup.antt =====
-- The choice of the rewrites for a query (webgui/internal/rewrites/rewrites.go, lookup).
use resolix.Common.{
  ℕ, Bool, ◌&&◌, ◌||◌, Option, none, some, List, [], ◌∷◌, ◌++◌, ltb, ◌==◌, nat_comparable,
  if◌then◌else◌, Text,
}
use resolix.Rewrites.Rule.{Rewrite, normalize_domain, domain_specificity, source_specificity}

-- A score is the specificity for the domain and that for the source.
abbrev pub Score : Type 0
Score = ℕ × ℕ

abbrev pub below : Score → Score → Bool
below (d, s) (d', s') = ltb d d' || d == d' && ltb s s'

module _ {A : Type 0} (score : A → Option Score) where
  -- bestDomain and bestSource, `none` while both are -1, and what was collected.
  abbrev pub State : Type 0
  State = Option Score × List A

  unfoldable pub collect_scored : State → A → Score → State
  collect_scored (none, out) x s = (some s, x ∷ [])
  collect_scored (some b, out) x s =
      if below s b
      then (some b, out)
      else if below b s
      then (some s, x ∷ [])
      else (some b, out ++ x ∷ [])

  unfoldable pub collect_one : State → A → Option Score → State
  collect_one st x none = st
  collect_one st x (some s) = collect_scored st x s

  -- The loop of lookup.
  unfoldable pub collect : State → List A → State
  collect st [] = st
  collect st (x ∷ xs) = collect (collect_one st x (score x)) xs

abbrev pub both : Option ℕ → Option ℕ → Option Score
both none s = none
both (some d) none = none
both (some d) (some s) = some (d, s)

module _ {Prefix Addr : Type 0} (contains : Prefix → Addr → Bool) (bits : Prefix → ℕ) where
  -- What the two tests in the loop give for a rewrite.
  unfoldable pub score_of : Text → Option Addr → Bool → Rewrite Prefix → Option Score
  score_of domain addr filter_source item =
      both (domain_specificity item domain)
        (if filter_source then source_specificity contains bits item addr else some 0)

  unfoldable pub lookup : List (Rewrite Prefix) → Text → Option Addr → Bool → List (Rewrite Prefix)
  lookup items domain addr filter_source =
      (collect (score_of (normalize_domain domain) addr filter_source) (none, []) items).1
