-- ===== src/Upstream/Pool.antt =====
-- The pool of upstream servers (webgui/internal/upstream/pool.go): how it is built and changed.
-- The bootstrap resolver, the health data and the log are not state here.
use resolix.Common.{
  ℕ, Bool, false, ◌||◌, Option, none, some, List, [], ◌∷◌, ◌++◌, length, leb, ◌==◌, nat_comparable,
  list_comparable, if◌then◌else◌, Text, bytes, trim_space, find, store, remove_at,
}
use resolix.Upstream.Spec.{Spec, SpecError, Parsed, ok, err, SpecPackages, normalized_key, parse}
use resolix.Upstream.Message.{Ecs, Prefix}
use resolix.Upstream.Stats.{Stat}

-- newResolver tells the two kinds apart by the scheme.
pub data Resolver : Type 0 where
  dns_resolver : Spec → Resolver
  doh_resolver : Spec → Resolver

-- resolverSpec, and String of it
abbrev pub resolver_spec : Resolver → Spec
resolver_spec (dns_resolver spec) = spec
resolver_spec (doh_resolver spec) = spec

abbrev pub name_of : Resolver → Text
name_of r = (resolver_spec r).raw

-- newResolver
abbrev pub new_resolver : Spec → Resolver
new_resolver spec = if spec.scheme == bytes "https" then doh_resolver spec else dns_resolver spec

abbrev pub max_resolver_groups : ℕ
max_resolver_groups = 256

pub record Pool (Float : Type 0) : Type 0 where
  pub mode : Text
  pub primary_specs : List Text
  pub fallback_specs : List Text
  pub primary : List Resolver
  pub fallback : List Resolver
  pub routes : List (Text × Resolver)
  pub groups : List (Text × List Resolver)
  pub stats : List (Text × Stat Float)
  pub ecs : Option Ecs
  pub dns64 : Bool
  pub dns64_prefixes : List Prefix

abbrev pub contains : Text → List Text → Bool
contains k [] = false
contains k (j ∷ ks) = j == k || contains k ks

abbrev pub or_load_balance : Text → Text
or_load_balance mode = if mode == [] then bytes "load_balance" else mode

-- strings.Join(specs, "\x00")
abbrev pub group_key : List Text → Text
group_key [] = []
group_key (s ∷ []) = s
group_key (s ∷ t ∷ ss) = s ++ 0 ∷ group_key (t ∷ ss)

pub data Routed : Type 0 where
  through : Resolver → Routed
  no_route : SpecError → Routed

module _ (packages : SpecPackages) where
  -- One turn of the loop of buildResolvers, with the keys seen so far and the turns behind it.
  abbrev pub add_parsed : Parsed → List Text → (List Text → List Resolver) → List Resolver
  add_parsed (err e) seen rest = rest seen
  add_parsed (ok spec) seen rest =
      let key = normalized_key packages spec in
      if contains key seen then rest seen else new_resolver spec ∷ rest (key ∷ seen)

  abbrev pub build_from : List Text → List Text → List Resolver
  build_from [] seen = []
  build_from (text ∷ specs) seen =
      let rest = build_from specs in
      let raw = trim_space text in
      if raw == [] then rest seen else add_parsed (parse packages raw) seen rest

  -- buildResolvers
  unfoldable pub build_resolvers : List Text → List Resolver
  build_resolvers specs = build_from specs []

  module _ {Float : Type 0} where
    -- NewPool, after the settings of ECS and DNS64 are parsed.
    unfoldable pub new_pool :
        Text → List Text → List Text → Option Ecs → Bool → List Prefix → Pool Float
    new_pool mode primary fallback ecs dns64 prefixes = record {
      mode = or_load_balance mode;
      primary_specs = primary;
      fallback_specs = fallback;
      primary = build_resolvers primary;
      fallback = build_resolvers fallback;
      routes = [];
      groups = [];
      stats = [];
      ecs = ecs;
      dns64 = dns64;
      dns64_prefixes = if dns64 then prefixes else [];
    }

    -- SetPrimarySpecs
    unfoldable pub set_primary_specs : List Text → Pool Float → Pool Float
    set_primary_specs specs p = record p { primary_specs = specs; primary = build_resolvers specs }

    -- SetBootstrapServers
    unfoldable pub set_bootstrap_servers : Pool Float → Pool Float
    set_bootstrap_servers p = record p {
      primary = build_resolvers p.primary_specs;
      fallback = build_resolvers p.fallback_specs;
      routes = [];
      groups = [];
    }

    -- SetRuntimeSettings, with the client subnet parsed.
    unfoldable pub set_runtime_settings : Text → List Text → Option Ecs → Pool Float → Pool Float
    set_runtime_settings mode fallback ecs p = record p {
      mode = or_load_balance mode;
      fallback_specs = fallback;
      fallback = build_resolvers fallback;
      ecs = ecs;
      routes = [];
      groups = [];
    }

    -- ClearRouteCache
    unfoldable pub clear_route_cache : Pool Float → Pool Float
    clear_route_cache p = record p { routes = [] }

    abbrev pub group_at :
        List Text → ℕ → Option (List Resolver) → Pool Float → Pool Float × List Resolver
    group_at specs victim (some rs) p = (p, rs)
    group_at specs victim none p =
        let rs = build_resolvers specs in
        let groups =
          if leb max_resolver_groups (length p.groups)
          then remove_at victim p.groups
          else p.groups in
        (record p { groups = store (group_key specs) rs groups }, rs)

    -- groupResolvers; the victim is the group that the range over the map meets first.
    unfoldable pub group_resolvers : List Text → ℕ → Pool Float → Pool Float × List Resolver
    group_resolvers specs victim p = group_at specs victim (find (group_key specs) p.groups) p

    abbrev pub route_parsed : Text → Parsed → Pool Float → Pool Float × Routed
    route_parsed raw (err e) p = (p, no_route e)
    route_parsed raw (ok spec) p =
        (record p { routes = store raw (new_resolver spec) p.routes }, through (new_resolver spec))

    abbrev pub route_at : Text → Option Resolver → Pool Float → Pool Float × Routed
    route_at raw (some r) p = (p, through r)
    route_at raw none p = route_parsed raw (parse packages raw) p

    -- routeResolver
    unfoldable pub route_resolver : Text → Pool Float → Pool Float × Routed
    route_resolver raw p = route_at raw (find raw p.routes) p
