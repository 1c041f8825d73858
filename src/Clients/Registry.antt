-- ===== src/Clients/Registry.antt =====
-- The registry and its changes (webgui/internal/clients/clients.go and persist.go). What the file
-- system answers to a save is an argument.
use resolix.Addresses.{NetPackage}
use resolix.Files.{Write, written, failed, unsynced}
use resolix.Common.{
  ℕ, suc, Bool, true, false, ◌&&◌, ◌||◌, Option, none, some, List, [], ◌∷◌, ◌++◌, replace_at,
  remove_at, ◌==◌, nat_comparable, list_comparable, if◌then◌else◌, Text,
}
use resolix.Clients.Profile.{
  repeated, already_exists, not_found, not_saved, not_read, conflicts_with, Result, ok, err, ◌>>=◌,
  CidrEntry, Client, compile,
}

-- What a read of the file finds. The networks of the clients are not part of it.
pub data File (Network : Type 0) : Type 0 where
  absent unreadable : File Network
  decoded : List (Client Network) → File Network

pub record Registry (Network : Type 0) : Type 0 where
  pub has_path : Bool
  pub file : File Network
  pub clients : List (Client Network)

abbrev pub next : Option ℕ → Option ℕ
next none = none
next (some n) = some (suc n)

module _ {Network : Type 0} where
  -- The index of the first client with the name.
  abbrev pub position : Text → List (Client Network) → Option ℕ
  position name [] = none
  position name (c ∷ cs) =
      let rest = position name cs in if c.name == name then some 0 else next rest

  abbrev pub write_clients :
      Registry Network → List (Client Network) → Write → Registry Network × Bool
  write_clients r cs written = (record r { file = decoded cs }, true)
  write_clients r cs failed = (r, false)
  write_clients r cs unsynced = (record r { file = decoded cs }, false)

  -- saveClients; the flag says that there was no error.
  unfoldable pub save_clients :
      Registry Network → List (Client Network) → Write → Registry Network × Bool
  save_clients r cs w = if r.has_path then write_clients r cs w else (r, true)

  -- The end of every change: the proposed clients are saved before they are used.
  unfoldable pub publish :
      Registry Network → List (Client Network) → Write → Registry Network × Result Bool
  publish r cs w =
      let (r', saved) = save_clients r cs w in
      if saved then (record r' { clients = cs }, ok true) else (r', err not_saved)

module _ (net : NetPackage) where
  open net use {Network, network_string}

  -- The inner loops of validateConflicts.
  abbrev pub same_id : CidrEntry Network → CidrEntry Network → Bool
  same_id e f = e.bits == f.bits && network_string e.network == network_string f.network

  abbrev pub clashes_with : CidrEntry Network → List (CidrEntry Network) → Bool
  clashes_with e [] = false
  clashes_with e (f ∷ fs) = same_id e f || clashes_with e fs

  abbrev pub clash : List (CidrEntry Network) → List (CidrEntry Network) → Bool
  clash [] fs = false
  clash (e ∷ es) fs = clashes_with e fs || clash es fs

  -- validateConflicts
  unfoldable pub validate_conflicts : List (Client Network) → Client Network → Result Bool
  validate_conflicts [] candidate = ok true
  validate_conflicts (c ∷ cs) candidate =
      let rest = validate_conflicts cs candidate in
      if clash c.nets candidate.nets then err (conflicts_with c.name) else rest

  -- A compiled profile that conflicts with none of the others.
  unfoldable pub validated :
      List (Client Network) → Result (Client Network) → Result (Client Network)
  validated others compiled = do
    candidate ← compiled
    fine ← validate_conflicts others candidate
    ok candidate

  abbrev pub finish_add :
      Registry Network → Write → Result (Client Network) → Registry Network × Result Bool
  finish_add r w (err e) = (r, err e)
  finish_add r w (ok candidate) = publish r (r.clients ++ candidate ∷ []) w

  abbrev pub finish_update :
      Registry Network → ℕ → Write → Result (Client Network) → Registry Network × Result Bool
  finish_update r n w (err e) = (r, err e)
  finish_update r n w (ok candidate) = publish r (replace_at n candidate r.clients) w

  -- Delete; the result is whether the client was removed.
  abbrev pub delete_at : Registry Network → Write → Option ℕ → Registry Network × Result Bool
  delete_at r w none = (r, err not_found)
  delete_at r w (some n) = publish r (remove_at n r.clients) w

  unfoldable pub delete : Registry Network → Text → Write → Registry Network × Result Bool
  delete r name w = delete_at r w (position name r.clients)

  abbrev pub finish_replace :
      Registry Network → Write → Result (List (Client Network)) → Registry Network × Result Bool
  finish_replace r w (err e) = (r, err e)
  finish_replace r w (ok proposed) = publish r proposed w

  abbrev pub proposed_with :
      List (Client Network) → Result (Client Network) → Result (List (Client Network))
  proposed_with proposed (err e) = err e
  proposed_with proposed (ok candidate) = ok (proposed ++ candidate ∷ [])

  module _ (sort : List (CidrEntry Network) → List (CidrEntry Network)) where
    abbrev pub add_at :
        Registry Network → Client Network → Write → Option ℕ → Registry Network × Result Bool
    add_at r c w none = finish_add r w (validated r.clients (compile net sort c))
    add_at r c w (some n) = (r, err already_exists)

    -- Add
    unfoldable pub add : Registry Network → Client Network → Write → Registry Network × Result Bool
    add r c w = add_at r c w (position c.name r.clients)

    -- The loop of Update, for a profile that compiled.
    abbrev pub update_at :
        Registry Network
        → Result (Client Network)
        → Write
        → Option ℕ
        → Registry Network × Result Bool
    update_at r (err e) w at = (r, err e)
    update_at r (ok candidate) w none = (r, err not_found)
    update_at r (ok candidate) w (some n) =
        finish_update r n w (validated (remove_at n r.clients) (ok candidate))

    -- Update
    unfoldable pub update :
        Registry Network → Client Network → Write → Registry Network × Result Bool
    update r c w = update_at r (compile net sort c) w (position c.name r.clients)

    -- One client in the loop of Replace.
    abbrev pub propose_at :
        List (Client Network) → Client Network → Option ℕ → Result (List (Client Network))
    propose_at proposed c (some n) = err repeated
    propose_at proposed c none = proposed_with proposed (validated proposed (compile net sort c))

    unfoldable pub propose_all :
        List (Client Network) → List (Client Network) → Result (List (Client Network))
    propose_all proposed [] = ok proposed
    propose_all proposed (c ∷ cs) =
        propose_at proposed c (position c.name proposed) >>= λ more. propose_all more cs

    -- Replace
    unfoldable pub replace :
        Registry Network → List (Client Network) → Write → Registry Network × Result Bool
    replace r items w = finish_replace r w (propose_all [] items)

    -- The loop of Load over the decoded clients.
    unfoldable pub compile_all : List (Client Network) → Result (List (Client Network))
    compile_all [] = ok []
    compile_all (c ∷ cs) = do first ← compile net sort c; rest ← compile_all cs; ok (first ∷ rest)

    unfoldable pub load_file : File Network → Result (List (Client Network))
    load_file absent = ok []
    load_file unreadable = err not_read
    load_file (decoded cs) = compile_all cs

    abbrev pub finish_reload : Registry Network → Result (List (Client Network)) → Registry Network
    finish_reload r (err e) = r
    finish_reload r (ok fresh) = record r { clients = fresh }

    -- reload; Load with an empty path reads nothing.
    unfoldable pub reload : Registry Network → Registry Network
    reload r = finish_reload r (if r.has_path then load_file r.file else ok [])
