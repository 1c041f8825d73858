-- ===== src/Rewrites/Tests.antt =====
-- Runs of the rewrites at concrete inputs, and the theorems at inputs where their hypotheses hold.
use resolix.Common.{
  ℕ, zero, suc, ◌+◌, ◌≡◌, refl, Bool, true, false, Option, none, some, List, [], ◌∷◌, ◌++◌, inl,
  inr, Text, bytes, leb, ◌==◌, nat_comparable, ◌&&◌, ltb,
}
use resolix.Rewrites.Rule.{
  Rewrite, normalize_domain, base_of, suffix_specificity, longest, source_specificity,
}
use resolix.Rewrites.Lookup.{Score, score_of, collect, collect_one, collect_scored, lookup}
use resolix.Rewrites.Best.{IsBest, lookup-IsBest}
use resolix.Rewrites.Suffix.{lookup-same_base}
use resolix.Rewrites.Store.{
  Store, Write, written, failed, unsynced, write_file, save_items, save, replace, add, update,
  update_at, delete, delete_at, delete_found,
}
use resolix.Rewrites.Changes.{
  Call, adds, updates, deletes, apply, apply_all, apply-rollback, apply_all-in_step,
  add-out_of_step,
}

-- A prefix is a number of leading digits of an address of two digits: 0, 1 or 2, with its digits.
abbrev Net : Type 0
Net = ℕ × ℕ

abbrev contains_digits : Net → ℕ → Bool
contains_digits (zero, d) a = true
contains_digits (suc zero, d) a = leb (d + 0) a && ltb a (d + 10)
contains_digits (suc (suc n), d) a = a == d

abbrev length_of_net : Net → ℕ
length_of_net n = n.0

abbrev rule : ℕ → Text → List Net → Rewrite Net
rule id domain nets = record {
  id = id ∷ [];
  domain = domain;
  kind = bytes "A";
  value = bytes "192.0.2.1";
  source_cidrs = [];
  source_prefixes = nets;
}

abbrev parent : Rewrite Net
parent = rule 1 (bytes "b.c") []

abbrev child : Rewrite Net
child = rule 2 (bytes "*.a.b.c") []

abbrev office : Rewrite Net
office = rule 3 (bytes "a.b.c") ((1, 20) ∷ [])

abbrev rules : List (Rewrite Net)
rules = parent ∷ child ∷ office ∷ []

program : Unit {0}
unfolding suffix_specificity longest source_specificity score_of collect collect_one collect_scored
    lookup write_file save_items save replace add update update_at delete delete_at delete_found
    apply
program = tt

-- The rule for the office wins where the address is of the office, and the wildcard elsewhere.
lookup-some :
    (lookup contains_digits length_of_net rules (bytes "x.A.b.c.") (some 25) true ≡ office ∷ [])
    × (lookup contains_digits length_of_net rules (bytes "x.a.b.c") (some 35) true ≡ child ∷ [])
    × (lookup contains_digits length_of_net rules (bytes "x.a.b.c") none false
        ≡ child ∷ office ∷ [])
    × (lookup contains_digits length_of_net rules (bytes "xb.c") none false ≡ [])
unfolding program
lookup-some = (refl, refl, refl, refl)

lookup-IsBest_example :
    (best : Option Score) × IsBest
      (score_of contains_digits length_of_net (normalize_domain (bytes "x.a.b.c")) (some 25) true)
      rules
      (best, lookup contains_digits length_of_net rules (bytes "x.a.b.c") (some 25) true)
lookup-IsBest_example =
    lookup-IsBest contains_digits length_of_net rules (bytes "x.a.b.c") (some 25) true

lookup-same_base_example : base_of child.domain ≡ base_of office.domain
unfolding program
lookup-same_base_example =
    lookup-same_base contains_digits length_of_net rules (bytes "x.a.b.c") none false child office
      (inl refl) (inr (inl refl))

abbrev saved : Store Net
saved = record { has_path = true; file = rules; items = rules }

apply-rollback_example : (apply saved (deletes (2 ∷ [])) failed).0.items ≡ rules
unfolding program
apply-rollback_example = apply-rollback saved (deletes (2 ∷ [])) failed refl

abbrev changes : List (Call Net × Write)
changes =
    (deletes (2 ∷ []), written)
    ∷ (adds child, failed)
    ∷ (updates (rule 3 (bytes "c.d") []), written)
    ∷ []

changes_left : (apply_all saved changes).items ≡ parent ∷ rule 3 (bytes "c.d") [] ∷ []
unfolding program
changes_left = refl

apply_all-in_step_example : (apply_all saved changes).file ≡ (apply_all saved changes).items
apply_all-in_step_example =
    apply_all-in_step saved changes refl refl ((λ e. cc), ((λ e. cc), ((λ e. cc), tt)))

add-out_of_step_example :
    ((add saved parent unsynced).1 ≡ false)
    × ((add saved parent unsynced).0.items ≡ rules)
    × ((add saved parent unsynced).0.file ≡ rules ++ parent ∷ [])
add-out_of_step_example = add-out_of_step saved parent refl
