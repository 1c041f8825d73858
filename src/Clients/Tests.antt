-- ===== src/Clients/Tests.antt =====
-- The registry at concrete profiles, and the theorems at profiles where their hypotheses hold.
use resolix.Addresses.{eight_bits}
use resolix.Files.{Write, written, failed}
use resolix.Common.{
  ℕ, ◌≡◌, refl, true, false, ◌↔◌, Option, none, some, List, [], ◌∷◌, Text, bytes, map,
  nat_comparable, list_comparable,
}
use resolix.Clients.Profile.{
  conflicts_with, err, CidrEntry, Client, compile, compile_ids, compile_id,
}
use resolix.Clients.Registry.{
  decoded, Registry, save_clients, publish, validate_conflicts, validated, add, update, delete,
  propose_all, replace, compile_all, load_file, reload,
}
use resolix.Clients.Find.{scan_nets, scan_clients, find_client}
use resolix.Clients.Consistent.{IsConsistent}
use resolix.Clients.Changes.{
  Call, adds, deletes, replaces, apply, apply_all, apply_all-IsConsistent,
}
use resolix.Clients.Owner.{IsOwner, find_client-IsOwner}

abbrev Net : Type 0
Net = ℕ × ℕ

abbrev unsorted : List (CidrEntry Net) → List (CidrEntry Net)
unsorted es = es

abbrev profile : Text → List Text → Client Net
profile name ids = record {
  name = name;
  ids = ids;
  tags = [];
  use_global_settings = true;
  filtering_enabled = true;
  safe_search_enabled = false;
  safe_search_engines = [];
  upstreams = [];
  exclude_from_log = false;
  exclude_from_stats = false;
  nets = [];
}

-- "A" is 65, which is in the upper four bits 4 and in the upper two bits 1.
abbrev office : Client Net
office = profile (bytes "office") (bytes "A/4" ∷ [])

abbrev building : Client Net
building = profile (bytes "building") (bytes "A/2" ∷ bytes "z" ∷ [])

abbrev rival : Client Net
rival = profile (bytes "rival") (bytes " B/4 " ∷ [])

abbrev empty_registry : Registry Net
empty_registry = record { has_path = true; file = decoded []; clients = [] }

program : Unit {0}
unfolding compile compile_ids compile_id save_clients publish validate_conflicts validated add
    update delete propose_all replace compile_all load_file reload scan_nets scan_clients
    find_client apply
program = tt

abbrev changes : List (Call Net × Write)
changes =
    (replaces (office ∷ []), written)
    ∷ (adds building, written)
    ∷ (adds rival, written)
    ∷ (deletes (bytes "office"), failed)
    ∷ []

abbrev registered : Registry Net
registered = apply_all eight_bits unsorted empty_registry changes

names_left : map (λ c. c.name) registered.clients ≡ bytes "office" ∷ bytes "building" ∷ []
unfolding program
names_left = refl

rival_error :
    (add eight_bits unsorted registered rival written).1 ≡ err (conflicts_with (bytes "office"))
unfolding program
rival_error = refl

-- The file is read without the checks of Add: two profiles then share a network.
reload_clash :
    map
      (λ c. c.nets)
      (reload eight_bits unsorted
        (record empty_registry { file = decoded (office ∷ rival ∷ []) })).clients
    ≡ (record { network = (4, 4); bits = 4 } ∷ [])
      ∷ (record { network = (4, 4); bits = 4 } ∷ [])
      ∷ []
unfolding program
reload_clash = refl

apply_all-IsConsistent_example : IsConsistent eight_bits registered.clients
apply_all-IsConsistent_example =
    apply_all-IsConsistent eight_bits unsorted (λ es e m. m) empty_registry changes
      (record { compatible = tt; sized = tt })

abbrev name_of : Option (Client Net) → Text
name_of none = []
name_of (some c) = c.name

find_client-names :
    map
      (λ text. name_of (find_client eight_bits registered.clients text))
      (bytes "B" ∷ bytes "a" ∷ bytes "z" ∷ bytes "p" ∷ [])
    ≡ bytes "office" ∷ bytes "building" ∷ bytes "building" ∷ bytes "building" ∷ []
unfolding program
find_client-names = refl

find_client-IsOwner_example :
    (find_client eight_bits registered.clients (bytes "B")
      ≡ some (record office { nets = record { network = (4, 4); bits = 4 } ∷ [] }))
    ↔ IsOwner eight_bits 66 registered.clients
        (record office { nets = record { network = (4, 4); bits = 4 } ∷ [] })
find_client-IsOwner_example =
    find_client-IsOwner eight_bits registered.clients (bytes "B") 66
      (record office { nets = record { network = (4, 4); bits = 4 } ∷ [] })
      (apply_all-IsConsistent eight_bits unsorted (λ es e m. m) empty_registry changes
        (record { compatible = tt; sized = tt }))
      refl
