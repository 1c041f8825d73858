-- ===== src/Sessions/Table.antt =====
-- The table of sessions (webgui/internal/api/security.go, from sessionEntry to deleteAllSessions,
-- with the constants of api.go). Times are nanoseconds. The random tokens are arguments, and the
-- list has one of the orders in which Go ranges over the map.
use resolix.Common.{
  ℕ, zero, suc, ◌+◌, ◌-◌, ◌*◌, Bool, true, false, not, ◌||◌, Option, none, some, List, [], ◌∷◌,
  length, keep, leb, ltb, ◌==◌, nat_comparable, list_comparable, if◌then◌else◌, Text, find, store,
  without,
}

abbrev hour : ℕ
hour = 3600000000000

abbrev pub session_lifetime : ℕ
session_lifetime = 24 * hour

abbrev pub session_idle_timeout : ℕ
session_idle_timeout = 12 * hour

abbrev pub max_sessions : ℕ
max_sessions = 1024

pub record SessionEntry : Type 0 where
  pub expires : ℕ
  pub last_seen : ℕ
  pub csrf : Text

abbrev pub Sessions : Type 0
Sessions = List (Text × SessionEntry)

abbrev pub expired : ℕ → SessionEntry → Bool
expired now e = leb e.expires now || leb session_idle_timeout (now - e.last_seen)

-- The loop that deletes what has expired.
abbrev pub still_live : ℕ → Text × SessionEntry → Bool
still_live now s = not (expired now s.1)

abbrev pub live_sessions : ℕ → Sessions → Sessions
live_sessions now m = keep (still_live now) m

abbrev pub oldest_from : Text × SessionEntry → Sessions → Text
oldest_from best [] = best.0
oldest_from best (s ∷ m) =
    oldest_from (if ltb (s.1.last_seen) (best.1.last_seen) then s else best) m

-- The session that was used longest ago.
abbrev pub oldest : Sessions → Text
oldest [] = []
oldest (s ∷ m) = oldest_from s m

-- The loop that deletes the oldest session while there are too many.
abbrev pub evict_oldest : ℕ → Sessions → Sessions
evict_oldest zero m = m
evict_oldest (suc fuel) m =
    let rest = evict_oldest fuel (without (oldest m) m) in
    if leb max_sessions (length m) then rest else m

abbrev pub fresh_entry : Text → ℕ → SessionEntry
fresh_entry csrf now = record { expires = now + session_lifetime; last_seen = now; csrf = csrf }

-- newSession; the loop is given a turn for each session.
unfoldable pub new_session : Text → Text → ℕ → Sessions → Sessions
new_session token csrf now m =
    let live = live_sessions now m in
    store token (fresh_entry csrf now) (evict_oldest (length live) live)

abbrev pub refresh : Text → ℕ → Sessions → Option SessionEntry → Sessions × Bool
refresh token now live none = (live, false)
refresh token now live (some e) = (store token (record e { last_seen = now }) live, true)

-- validSession
unfoldable pub valid_session : Text → ℕ → Sessions → Sessions × Bool
valid_session token now m =
    let live = live_sessions now m in
    if token == [] then (live, false) else refresh token now live (find token live)

abbrev pub unless_expired : ℕ → Option SessionEntry → Option SessionEntry
unless_expired now none = none
unless_expired now (some e) = if expired now e then none else some e

-- lookupSessionLocked
unfoldable pub lookup_session : Text → ℕ → Sessions → Option SessionEntry
lookup_session token now m = unless_expired now (find token m)

-- sessionCSRFToken
abbrev pub csrf_of : Option SessionEntry → Text × Bool
csrf_of none = ([], false)
csrf_of (some e) = (e.csrf, true)

unfoldable pub session_csrf_token : Text → ℕ → Sessions → Text × Bool
session_csrf_token token now m = csrf_of (lookup_session token now m)

-- sessionAlive
abbrev pub is_found : Option SessionEntry → Bool
is_found none = false
is_found (some e) = true

unfoldable pub session_alive : Text → ℕ → Sessions → Bool
session_alive token now m = is_found (lookup_session token now m)

-- deleteSession
abbrev pub delete_session : Text → Sessions → Sessions
delete_session token m = without token m

-- deleteAllSessions
abbrev pub delete_all_sessions : Sessions → Sessions
delete_all_sessions m = []

-- A call of the server at a time.
pub data Call : Type 0 where
  issues : Text → Text → ℕ → Call
  validates : Text → ℕ → Call
  deletes : Text → Call
  deletes_all : Call

abbrev pub step : Call → Sessions → Sessions
step (issues token csrf now) m = new_session token csrf now m
step (validates token now) m = (valid_session token now m).0
step (deletes token) m = delete_session token m
step deletes_all m = delete_all_sessions m

abbrev pub run : List Call → Sessions → Sessions
run [] m = m
run (c ∷ calls) m = run calls (step c m)
