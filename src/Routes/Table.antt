-- ===== src/Routes/Table.antt =====
-- The routes in their order, and the choice among them (webgui/internal/dnsroutes/dnsroutes.go).
use resolix.Common.{
  ◌≡◌, Bool, true, false, not, ◌&&◌, ◌||◌, List, [], ◌∷◌, ◌++◌, length, drop, ltb, ◌==◌,
  nat_comparable, list_comparable, same_bool, if◌then◌else◌, Text, bytes, to_lower, trim_dot,
  has_prefix, has_suffix, All,
}

pub record Route : Type 0 where
  pub pattern : Text
  pub upstream : Text

abbrev pub is_wildcard : Text → Bool
is_wildcard pattern = has_prefix pattern (bytes "*.")

-- matchPattern
unfoldable pub match_pattern : Text → Text → Bool
match_pattern pattern domain =
    if pattern == domain
    then true
    else if is_wildcard pattern
    then has_suffix domain (bytes "." ++ drop 2 pattern) || domain == drop 2 pattern
    else false

-- `<` on strings.
abbrev pub text_less : Text → Text → Bool
text_less s [] = false
text_less [] (d ∷ t) = true
text_less (c ∷ s) (d ∷ t) = ltb c d || c == d && text_less s t

-- The order that sortRoutes gives to sort.Slice.
unfoldable pub less : Route → Route → Bool
less a b =
    if not (same_bool (is_wildcard a.pattern) (is_wildcard b.pattern))
    then not (is_wildcard a.pattern)
    else if is_wildcard a.pattern && not (length a.pattern == length b.pattern)
    then ltb (length b.pattern) (length a.pattern)
    else text_less a.pattern b.pattern

-- What sort.Slice leaves: nothing stands before something less.
abbrev pub IsSorted : List Route → Type 0
IsSorted [] = Unit
IsSorted (r ∷ rs) = All (λ s. less s r ≡ false) rs × IsSorted rs

-- The loop of GetUpstreamForDomain.
unfoldable pub first_upstream : Text → List Route → Text
first_upstream domain [] = []
first_upstream domain (r ∷ rs) =
    if match_pattern r.pattern domain then r.upstream else first_upstream domain rs

-- GetUpstreamForDomain
unfoldable pub get_upstream_for_domain : List Route → Text → Text
get_upstream_for_domain routes domain = first_upstream (to_lower (trim_dot domain)) routes
