-- ===== src/Rewrites/Best.antt =====
-- lookup against its description: the rewrites with the greatest score, in their order.
use mathlib.Core.List.{append-nil, append_assoc}
use mathlib.Core.Path.{subst}
use resolix.Common.{
  ℕ, ◌<◌, ◌≡◌, refl, ap, sym, ◌∙◌, Bool, true, false, not, ◌&&◌, Option, none, some, List, [], ◌∷◌,
  ◌++◌, length, length-append, keep, keep-append, keep_none, All, All-append, All-map, ◌==◌,
  nat_comparable, Text, arith, if_intro,
}
use resolix.Rewrites.Rule.{Rewrite, normalize_domain}
use resolix.Rewrites.Lookup.{
  Score, below, State, collect_scored, collect_one, collect, score_of, lookup,
}

abbrev pub has_score : Score → Option Score → Bool
has_score b none = false
has_score (d, s) (some (d', s')) = d == d' && s == s'

abbrev pub at_most : Score → Option Score → Bool
at_most b none = true
at_most b (some s) = not (below b s)

at_most-rises :
    (b s : Score) (o : Option Score) → below b s ≡ true → at_most b o ≡ true → at_most s o ≡ true
at_most-rises b s none p q = refl
at_most-rises b s (some t) p q = ground arith

has_score-rises :
    (b s : Score) (o : Option Score) → below b s ≡ true → at_most b o ≡ true → has_score s o ≡ false
has_score-rises b s none p q = refl
has_score-rises b s (some t) p q = ground arith

at_most_self : (s : Score) → at_most s (some s) ≡ true
at_most_self s = ground arith

has_score_self : (s : Score) → has_score s (some s) ≡ true
has_score_self s = ground arith

at_most-below : (b s : Score) → below s b ≡ true → at_most b (some s) ≡ true
at_most-below b s p = ground arith

has_score-below : (b s : Score) → below s b ≡ true → has_score b (some s) ≡ false
has_score-below b s p = ground arith

has_score_same : (b s : Score) → below s b ≡ false → below b s ≡ false → has_score b (some s) ≡ true
has_score_same b s p q = ground arith

module _ {A : Type 0} (score : A → Option Score) where
  abbrev pub scored : Score → A → Bool
  scored b x = has_score b (score x)

  -- Either nothing has a score, or `b` is the greatest score there is, and what was collected are
  -- all that have it.
  abbrev pub IsBest : List A → State score → Type 0
  IsBest xs (none, out) = All (λ x. score x ≡ none) xs × (out ≡ [])
  IsBest xs (some b, out) =
      All (λ x. at_most b (score x) ≡ true) xs × (out ≡ keep (scored b) xs) × (0 < length out)

  -- What the new element adds to those with the score `b`.
  keep-more :
      (b : Score) (xs : List A) (x : A)
      → has_score b (score x) ≡ true
      → keep (scored b) (xs ++ x ∷ []) ≡ keep (scored b) xs ++ x ∷ []
  keep-more b xs x e = keep-append (scored b) xs (x ∷ []) ∙ rw e refl

  keep-same :
      (b : Score) (xs : List A) (x : A)
      → has_score b (score x) ≡ false
      → keep (scored b) (xs ++ x ∷ []) ≡ keep (scored b) xs
  keep-same b xs x e = keep-append (scored b) xs (x ∷ []) ∙ rw e (append-nil _)

  abbrev AtMost : Score → A → Type 0
  AtMost b x = at_most b (score x) ≡ true

  collect_scored-IsBest :
      (xs : List A) (b : Score) (out : List A) (x : A) (s : Score)
      → score x ≡ some s
      → IsBest xs (some b, out)
      → IsBest (xs ++ x ∷ []) (collect_scored score (some b, out) x s)
  unfolding collect_scored
  collect_scored-IsBest xs b out x s e v =
      if_intro (IsBest (xs ++ x ∷ [])) (below s b)
        (λ less. (
          All-append (AtMost b) xs (x ∷ []) v.0 (ap (at_most b) e ∙ at_most-below b s less, tt),
          v.1 ∙ sym (keep-same b xs x (ap (has_score b) e ∙ has_score-below b s less)),
          v.2,
        ))
        (λ not_less.
          if_intro (IsBest (xs ++ x ∷ [])) (below b s)
            (λ more. (
              All-append (AtMost s) xs (x ∷ [])
                  (All-map xs (λ y. at_most-rises b s (score y) more) v.0)
                  (ap (at_most s) e ∙ at_most_self s, tt),
              ap (λ l. l ++ x ∷ [])
                    (sym (
                      keep_none (scored s) xs
                        (All-map xs (λ y. has_score-rises b s (score y) more) v.0)))
                  ∙ sym (keep-more s xs x (ap (has_score s) e ∙ has_score_self s)),
              omega arith,
            ))
            (λ not_more. (
              All-append (AtMost b) xs (x ∷ []) v.0 (ap (at_most b) e ∙ rw not_more refl, tt),
              ap (λ l. l ++ x ∷ []) v.1
                  ∙ sym (
                      keep-more b xs x (ap (has_score b) e ∙ has_score_same b s not_less not_more)),
              omega (arith, length-append out (x ∷ [])),
            )))

  has_score-none : (b : Score) (o : Option Score) → o ≡ none → has_score b o ≡ false
  has_score-none b o e = rw e refl

  at_most-none : (b : Score) (o : Option Score) → o ≡ none → at_most b o ≡ true
  at_most-none b o e = rw e refl

  collect_one-IsBest :
      (xs : List A) (st : State score) (x : A) (o : Option Score)
      → score x ≡ o
      → IsBest xs st
      → IsBest (xs ++ x ∷ []) (collect_one score st x o)
  unfolding collect_one collect_scored
  collect_one-IsBest xs (none, out) x none e v =
      (All-append (λ y. score y ≡ none) xs (x ∷ []) v.0 (e, tt), v.1)
  collect_one-IsBest xs (none, out) x (some s) e v = (
    All-append (AtMost s) xs (x ∷ []) (All-map xs (λ y. at_most-none s (score y)) v.0)
        (ap (at_most s) e ∙ at_most_self s, tt),
    ap (λ l. l ++ x ∷ [])
          (sym (keep_none (scored s) xs (All-map xs (λ y. has_score-none s (score y)) v.0)))
        ∙ sym (keep-more s xs x (ap (has_score s) e ∙ has_score_self s)),
    omega arith,
  )
  collect_one-IsBest xs (some b, out) x none e v = (
    All-append (AtMost b) xs (x ∷ []) v.0 (at_most-none b (score x) e, tt),
    v.1 ∙ sym (keep-same b xs x (has_score-none b (score x) e)),
    v.2,
  )
  collect_one-IsBest xs (some b, out) x (some s) e v = collect_scored-IsBest xs b out x s e v

  collect-IsBest :
      (ys xs : List A) (st : State score) → IsBest xs st → IsBest (xs ++ ys) (collect score st ys)
  unfolding collect
  collect-IsBest [] xs st v = rw (append-nil xs) v
  collect-IsBest (y ∷ ys) xs st v =
      subst (λ l. IsBest l (collect score (collect_one score st y (score y)) ys))
        (append_assoc xs (y ∷ []) ys)
        (collect-IsBest ys (xs ++ y ∷ []) (collect_one score st y (score y))
          (collect_one-IsBest xs st y (score y) refl v))

module _ {Prefix Addr : Type 0} (contains : Prefix → Addr → Bool) (bits : Prefix → ℕ) where
  -- For every set of rewrites, domain and source: either no rewrite applies and the answer is
  -- empty, or there is a greatest score, the domain before the source, and the answer are all the
  -- rewrites that have it, in their order, and at least one.
  pub lookup-IsBest :
      (items : List (Rewrite Prefix)) (domain : Text) (addr : Option Addr) (filter_source : Bool)
      → (best : Option Score) × IsBest
          (score_of contains bits (normalize_domain domain) addr filter_source)
          items
          (best, lookup contains bits items domain addr filter_source)
  unfolding lookup
  lookup-IsBest items domain addr filter_source = (
    _,
    collect-IsBest (score_of contains bits (normalize_domain domain) addr filter_source) items []
        (none, []) (tt, refl),
  )
