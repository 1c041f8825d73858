-- ===== src/Clients/Find.antt =====
-- The profile of an address (webgui/internal/clients/clients.go, Find).
use resolix.Addresses.{NetPackage}
use resolix.Common.{
  ℕ, Bool, true, ◌&&◌, Option, none, some, List, [], ◌∷◌, ltb, if◌then◌else◌, Text,
}
use resolix.Clients.Profile.{CidrEntry, Client}

module _ (net : NetPackage) where
  open net use {Ip, Network, parse_ip, contains}

  -- `best` with `bestBits`; `none` stands for nil and -1.
  abbrev pub Best : Type 0
  Best = Option (Client Network × ℕ)

  abbrev pub above : ℕ → Best → Bool
  above bits none = true
  above bits (some (c, b)) = ltb b bits

  -- The inner loop.
  unfoldable pub scan_nets : Ip → Client Network → Best → List (CidrEntry Network) → Best
  scan_nets ip c best [] = best
  scan_nets ip c best (e ∷ es) =
      scan_nets ip c (if contains e.network ip && above e.bits best then some (c, e.bits) else best)
        es

  -- The outer loop.
  unfoldable pub scan_clients : Ip → Best → List (Client Network) → Best
  scan_clients ip best [] = best
  scan_clients ip best (c ∷ cs) = scan_clients ip (scan_nets ip c best c.nets) cs

  abbrev pub client_of : Best → Option (Client Network)
  client_of none = none
  client_of (some (c, b)) = some c

  abbrev pub find_at : List (Client Network) → Option Ip → Option (Client Network)
  find_at cs none = none
  find_at cs (some ip) = client_of (scan_clients ip none cs)

  -- Find
  unfoldable pub find_client : List (Client Network) → Text → Option (Client Network)
  find_client cs ip = find_at cs (parse_ip ip)
