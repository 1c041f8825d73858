-- ===== src/Routes/Tests.antt =====
-- The routes at concrete inputs, and the theorem at one where its hypotheses hold.
use resolix.Common.{◌≡◌, refl, List, [], ◌∷◌, bytes, inl, inr}
use resolix.Routes.Table.{
  Route, match_pattern, less, IsSorted, first_upstream, get_upstream_for_domain,
}
use resolix.Routes.Specific.{Decides, get_upstream_for_domain-Decides}

abbrev exact : Route
exact = record { pattern = bytes "a.b.c"; upstream = bytes "one" }

abbrev near : Route
near = record { pattern = bytes "*.b.c"; upstream = bytes "two" }

abbrev far : Route
far = record { pattern = bytes "*.c"; upstream = bytes "three" }

abbrev table : List Route
table = exact ∷ near ∷ far ∷ []

program : Unit {0}
unfolding match_pattern less first_upstream get_upstream_for_domain
program = tt

table_upstreams :
    (get_upstream_for_domain table (bytes "A.b.c.") ≡ bytes "one")
    × (get_upstream_for_domain table (bytes "x.b.c") ≡ bytes "two")
    × (get_upstream_for_domain table (bytes "b.c") ≡ bytes "two")
    × (get_upstream_for_domain table (bytes "xb.d") ≡ [])
unfolding program
table_upstreams = (refl, refl, refl, refl)

table-IsSorted : IsSorted table
unfolding program
table-IsSorted = ((refl, (refl, tt)), ((refl, tt), (tt, tt)))

get_upstream_for_domain-Decides_example :
    (b : Route) × Decides table
      (bytes "x.b.c")
      far
      (get_upstream_for_domain table (bytes "X.b.c."))
      b
unfolding program
get_upstream_for_domain-Decides_example =
    get_upstream_for_domain-Decides table (bytes "X.b.c.") far table-IsSorted (inr (inr (inl refl)))
      refl
