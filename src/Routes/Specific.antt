-- ===== src/Routes/Specific.antt =====
-- The most specific route decides (webgui/internal/dnsroutes/dnsroutes.go, GetUpstreamForDomain).
use resolix.Common.{
  All-Member, ◌≤◌, ◌≡◌, refl, ap, sym, ◌∙◌, true, false, ◌⊎◌, inl, inr, List, [], ◌∷◌, length,
  Member, ==_iff, nat_comparable, list_comparable, Text, to_lower, trim_dot, arith, if_intro,
}
use resolix.Routes.Table.{
  Route, is_wildcard, match_pattern, less, IsSorted, first_upstream, get_upstream_for_domain,
}

-- `b` decides for the domain, and is at least as specific as `r`: exact patterns come before
-- wildcards, and longer wildcards before shorter ones.
pub record Decides (routes : List Route) (domain : Text) (r : Route) (answer : Text) (b : Route)
    : Type 0 where
  pub present : Member b routes
  pub matched : match_pattern b.pattern domain ≡ true
  pub upstream : answer ≡ b.upstream
  pub exact : is_wildcard r.pattern ≡ false → b.pattern ≡ domain
  pub longest : is_wildcard b.pattern ≡ true → length r.pattern ≤ length b.pattern

less-exact :
    (r b : Route) → less r b ≡ false → is_wildcard r.pattern ≡ false → is_wildcard b.pattern ≡ false
unfolding less
less-exact r b n e = ground arith

less-longest :
    (r b : Route)
    → less r b ≡ false
    → is_wildcard b.pattern ≡ true
    → length r.pattern ≤ length b.pattern
unfolding less
less-longest r b n e = ground arith

match_pattern-exact :
    (pattern domain : Text)
    → match_pattern pattern domain ≡ true
    → is_wildcard pattern ≡ false
    → pattern ≡ domain
unfolding match_pattern
match_pattern-exact pattern domain m e = (==_iff pattern domain).0 (ground (arith, m, e))

-- The first route matches: it decides for itself, and for those behind it.
head-Decides :
    (b : Route) (rs : List Route) (domain : Text) (r : Route)
    → match_pattern b.pattern domain ≡ true
    → (r ≡ b) ⊎ (less r b ≡ false)
    → Decides (b ∷ rs) domain r b.upstream b
head-Decides b rs domain r m (inl same) = record {
  present = inl refl;
  matched = m;
  upstream = refl;
  exact = λ e.
      match_pattern-exact b.pattern domain m
        (ap (λ (x : Route). is_wildcard x.pattern) (sym same) ∙ e);
  longest = λ _. omega (arith, ap (λ (x : Route). length x.pattern) same);
}
head-Decides b rs domain r m (inr n) = record {
  present = inl refl;
  matched = m;
  upstream = refl;
  exact = λ e. match_pattern-exact b.pattern domain m (less-exact r b n e);
  longest = λ e. less-longest r b n e;
}

tail-Decides :
    (x : Route) (rs : List Route) (domain : Text) (r : Route) (answer : Text) (b : Route)
    → Decides rs domain r answer b
    → Decides (x ∷ rs) domain r answer b
tail-Decides x rs domain r answer b d = record {
  present = inr d.present;
  matched = d.matched;
  upstream = d.upstream;
  exact = d.exact;
  longest = d.longest;
}

against :
    (x : Route) (rs : List Route) (r : Route)
    → IsSorted (x ∷ rs)
    → Member r (x ∷ rs)
    → (r ≡ x) ⊎ (less r x ≡ false)
against x rs r s (inl same) = inl same
against x rs r s (inr later) = inr (All-Member (λ y. less y x ≡ false) rs r s.0 later)

passed :
    (x : Route) (rs : List Route) (domain : Text) (r : Route)
    → match_pattern x.pattern domain ≡ false
    → match_pattern r.pattern domain ≡ true
    → Member r (x ∷ rs)
    → Member r rs
passed x rs domain r missed hit (inl same) =
    absurd (ground (arith, missed, hit, ap (λ (y : Route). match_pattern y.pattern domain) same))
passed x rs domain r missed hit (inr later) = later

first_upstream-Decides :
    (routes : List Route) (domain : Text) (r : Route)
    → IsSorted routes
    → Member r routes
    → match_pattern r.pattern domain ≡ true
    → (b : Route) × Decides routes domain r (first_upstream domain routes) b
unfolding first_upstream
first_upstream-Decides [] domain r s p m = absurd (p tt)
first_upstream-Decides (x ∷ rs) domain r s p m =
    if_intro (λ answer. (b : Route) × Decides (x ∷ rs) domain r answer b)
      (match_pattern x.pattern domain)
      (λ hit. (x, head-Decides x rs domain r hit (against x rs r s p)))
      (λ missed.
        let (b, d) = first_upstream-Decides rs domain r s.1 (passed x rs domain r missed m p) m in
        (b, tail-Decides x rs domain r (first_upstream domain rs) b d))

-- In sorted routes, whichever route matches a domain: the upstream that is returned is that of a
-- matching route which is at least as specific. If the given route is no wildcard, the deciding
-- one is the domain itself, and if the deciding one is a wildcard, it is at least as long.
pub get_upstream_for_domain-Decides :
    (routes : List Route) (domain : Text) (r : Route)
    → IsSorted routes
    → Member r routes
    → match_pattern r.pattern (to_lower (trim_dot domain)) ≡ true
    → (b : Route) × Decides routes
        (to_lower (trim_dot domain))
        r
        (get_upstream_for_domain routes domain)
        b
unfolding get_upstream_for_domain
get_upstream_for_domain-Decides routes domain r s p m =
    first_upstream-Decides routes (to_lower (trim_dot domain)) r s p m
