-- ===== src/Rewrites/Suffix.antt =====
-- Domains match at label boundaries (webgui/internal/rewrites/rewrites.go, domainSpecificity).
use mathlib.Core.Path.{subst}
use mathlib.Core.List.{append_assoc}
use resolix.Common.{
  ℕ, ◌≡◌, refl, ap, ap₂, sym, ◌∙◌, Bool, true, Bool-cases, inl, inr, Option, none, some, List, [],
  ◌∷◌, ◌++◌, length, length-append, Member, keep, drop, ◌==◌, ==_iff, nat_comparable,
  list_comparable, if◌then◌else◌, Text, bytes, arith, if_intro, has_suffix, has_prefix,
}
use resolix.Rewrites.Rule.{
  Rewrite, normalize_domain, base_of, suffix_specificity, source_specificity,
}
use resolix.Rewrites.Lookup.{Score, both, score_of, lookup}
use resolix.Rewrites.Best.{has_score, scored, IsBest, lookup-IsBest}

drop-append : (xs ys : Text) → drop (length xs) (xs ++ ys) ≡ ys
drop-append [] ys = refl
drop-append (x ∷ xs) ys = drop-append xs ys

-- Two tails of one text that have the same length are the same.
same_tail : (xs ys us vs : Text) → xs ++ us ≡ ys ++ vs → length us ≡ length vs → us ≡ vs
same_tail xs ys us vs e l =
    sym (drop-append xs us)
    ∙ ap₂ drop (omega (arith, l, ap length e, length-append xs us, length-append ys vs)) e
    ∙ drop-append ys vs

has_suffix-split : (s p : Text) → has_suffix s p ≡ true → (pre : Text) × (s ≡ pre ++ p)
has_suffix-split [] p e = ([], sym ((==_iff p []).0 e))
has_suffix-split (c ∷ s) p e = elim (Bool-cases ((c ∷ s) == p)) [
  | inl whole ↦ ([], (==_iff (c ∷ s) p).0 whole)
  | inr part ↦
      let (pre, eq) = has_suffix-split s p (ground (arith, e, part)) in
      (c ∷ pre, ap (λ r. c ∷ r) eq)
]

-- What a match says of a domain.
abbrev IsTail : Text → Text → Option ℕ → Type 0
IsTail rule domain none = Unit
IsTail rule domain (some n) =
    ((pre : Text) × (domain ≡ pre ++ base_of rule)) × (length (base_of rule) ≡ n)

suffix_specificity-IsTail :
    (rule domain : Text) → IsTail rule domain (suffix_specificity rule domain)
unfolding suffix_specificity
suffix_specificity-IsTail rule domain =
    if_intro (IsTail rule domain) (domain == base_of rule)
      (λ whole.
        if_intro (IsTail rule domain) (has_prefix rule (bytes "*.")) (λ _. tt)
          (λ _. (([], (==_iff domain (base_of rule)).0 whole), refl)))
      (λ _.
        if_intro (IsTail rule domain) (has_suffix domain (bytes "." ++ base_of rule))
          (λ part.
            let (pre, eq) = has_suffix-split domain (bytes "." ++ base_of rule) part in
            ((pre ++ bytes ".", eq ∙ sym (append_assoc pre (bytes ".") (base_of rule))), refl))
          (λ _. tt))

-- Two rules that match with the same specificity have the same base.
same_base :
    (rule rule' domain : Text) (n : ℕ)
    → suffix_specificity rule domain ≡ some n
    → suffix_specificity rule' domain ≡ some n
    → base_of rule ≡ base_of rule'
same_base rule rule' domain n e e' =
    let t = subst (IsTail rule domain) e (suffix_specificity-IsTail rule domain) in
    let t' = subst (IsTail rule' domain) e' (suffix_specificity-IsTail rule' domain) in
    same_tail t.0.0 t'.0.0 (base_of rule) (base_of rule') (sym t.0.1 ∙ t'.0.1) (t.1 ∙ sym t'.1)

module _ {A : Type 0} where
  Member-keep : (p : A → Bool) (a : A) (xs : List A) → Member a (keep p xs) → p a ≡ true
  Member-keep p a [] m = absurd (m tt)
  Member-keep p a (x ∷ xs) m =
      if_intro (λ l. Member a l → p a ≡ true) (p x)
        (λ e. elim [ inl same ↦ ap p same ∙ e | inr later ↦ Member-keep p a xs later ])
        (λ e. Member-keep p a xs) m

has_score-both : (b : Score) (o s : Option ℕ) → has_score b (both o s) ≡ true → o ≡ some b.0
has_score-both b none s e = ground (arith, e)
has_score-both b (some d) none e = ground (arith, e)
has_score-both b (some d) (some s) e = ground (arith, e)

module _ {Prefix Addr : Type 0} (contains : Prefix → Addr → Bool) (bits : Prefix → ℕ) where
  score_of-domain :
      (domain : Text) (addr : Option Addr) (filter_source : Bool) (b : Score) (r : Rewrite Prefix)
      → has_score b (score_of contains bits domain addr filter_source r) ≡ true
      → suffix_specificity r.domain domain ≡ some b.0
  unfolding score_of
  score_of-domain domain addr filter_source b r e =
      has_score-both b (suffix_specificity r.domain domain)
        (if filter_source then source_specificity contains bits r addr else some 0) e

  IsBest-same_base :
      (items : List (Rewrite Prefix)) (domain : Text) (addr : Option Addr) (filter_source : Bool)
      (best : Option Score) (out : List (Rewrite Prefix)) (r r' : Rewrite Prefix)
      → IsBest (score_of contains bits domain addr filter_source) items (best, out)
      → Member r out
      → Member r' out
      → base_of r.domain ≡ base_of r'.domain
  IsBest-same_base items domain addr filter_source none out r r' v m m' =
      absurd (subst (Member r) v.1 m tt)
  IsBest-same_base items domain addr filter_source (some b) out r r' v m m' =
      same_base r.domain r'.domain domain b.0 (matched r m) (matched r' m')
    where
      score : Rewrite Prefix → Option Score
      score = score_of contains bits domain addr filter_source

      matched : (x : Rewrite Prefix) → Member x out → suffix_specificity x.domain domain ≡ some b.0
      matched x m =
          score_of-domain domain addr filter_source b x
            (Member-keep (scored score b) x items (subst (Member x) v.1 m))

  -- All rewrites of one answer have the same domain, but for a leading wildcard: records for a
  -- parent domain are never mixed with those of a more specific one.
  pub lookup-same_base :
      (items : List (Rewrite Prefix)) (domain : Text) (addr : Option Addr) (filter_source : Bool)
      (r r' : Rewrite Prefix)
      → Member r (lookup contains bits items domain addr filter_source)
      → Member r' (lookup contains bits items domain addr filter_source)
      → base_of r.domain ≡ base_of r'.domain
  lookup-same_base items domain addr filter_source r r' m m' =
      let (best, v) = lookup-IsBest contains bits items domain addr filter_source in
      IsBest-same_base items (normalize_domain domain) addr filter_source best _ r r' v m m'
