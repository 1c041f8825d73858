-- ===== src/Sessions/Login.antt =====
-- The limiter of failed logins (webgui/internal/api/security.go, from getRateLimitBackoff to
-- cleanupRateLimits). Times are nanoseconds.
use resolix.Common.{
  ℕ, ◌+◌, ◌-◌, ◌*◌, ◌^◌, not, Option, none, some, List, [], ◌∷◌, ◌++◌, length, keep, leb, ltb, ◌==◌,
  nat_comparable, list_comparable, if◌then◌else◌, Text, find, store, without,
}

abbrev pub second : ℕ
second = 1000000000

abbrev pub login_backoff_cap : ℕ
login_backoff_cap = 300 * second

abbrev pub login_failure_memory : ℕ
login_failure_memory = 3600 * second

abbrev pub global_login_failure_window : ℕ
global_login_failure_window = 900 * second

abbrev pub global_login_failure_limit : ℕ
global_login_failure_limit = 50

abbrev pub max_rate_limit_entries : ℕ
max_rate_limit_entries = 10000

pub record RateLimitEntry : Type 0 where
  pub count : ℕ
  pub last_seen : ℕ

pub record LoginLimiter : Type 0 where
  pub rate_limits : List (Text × RateLimitEntry)
  pub global_failures : List ℕ

-- getRateLimitBackoff
unfoldable pub get_rate_limit_backoff : ℕ → ℕ
get_rate_limit_backoff count =
    if leb count 1
    then 0
    else if ltb 300 (2 ^ (count - 2))
    then login_backoff_cap
    else 2 ^ (count - 2) * second

-- pruneGlobalFailuresLocked
abbrev pub prune_global_failures : ℕ → LoginLimiter → LoginLimiter
prune_global_failures now s = record s {
  global_failures = keep (λ at. ltb now (at + global_login_failure_window)) s.global_failures;
}

abbrev pub wait_or_pass : ℕ → ℕ → Option ℕ
wait_or_pass backoff elapsed = if ltb elapsed backoff then some (backoff - elapsed) else none

abbrev pub check_entry : Text → ℕ → LoginLimiter → Option RateLimitEntry → LoginLimiter × Option ℕ
check_entry ip now s none = (s, none)
check_entry ip now s (some e) =
    if e.count == 0
    then (s, none)
    else if ltb login_failure_memory (now - e.last_seen)
    then (record s { rate_limits = without ip s.rate_limits }, none)
    else (
      s,
      wait_or_pass
          (if leb global_login_failure_limit (length s.global_failures)
            then login_backoff_cap
            else get_rate_limit_backoff e.count)
          (now - e.last_seen),
    )

-- checkRateLimit; the option is the remaining time of a request that is rejected.
unfoldable pub check_rate_limit : Text → ℕ → LoginLimiter → LoginLimiter × Option ℕ
check_rate_limit ip now s = check_entry ip now (prune_global_failures now s) (find ip s.rate_limits)

abbrev pub oldest_from : Text × RateLimitEntry → List (Text × RateLimitEntry) → Text
oldest_from best [] = best.0
oldest_from best (e ∷ m) =
    oldest_from (if ltb (e.1.last_seen) (best.1.last_seen) then e else best) m

-- evictOldestRateLimitLocked, in one of the orders in which Go ranges over the map
abbrev pub evict_oldest_rate_limit : List (Text × RateLimitEntry) → List (Text × RateLimitEntry)
evict_oldest_rate_limit [] = []
evict_oldest_rate_limit (e ∷ m) = without (oldest_from e m) (e ∷ m)

abbrev pub count_failure :
    Text → ℕ → List (Text × RateLimitEntry) → Option RateLimitEntry → List (Text × RateLimitEntry)
count_failure ip now m (some e) = store ip (record { count = e.count + 1; last_seen = now }) m
count_failure ip now m none =
    store ip (record { count = 1; last_seen = now })
      (if leb max_rate_limit_entries (length m) then evict_oldest_rate_limit m else m)

-- recordFailedLogin
unfoldable pub record_failed_login : Text → ℕ → LoginLimiter → LoginLimiter
record_failed_login ip now s = prune_global_failures now (record s {
  global_failures = s.global_failures ++ now ∷ [];
  rate_limits = count_failure ip now s.rate_limits (find ip s.rate_limits);
})

-- resetRateLimit
abbrev pub reset_rate_limit : Text → LoginLimiter → LoginLimiter
reset_rate_limit ip s = record s { rate_limits = without ip s.rate_limits }

-- One turn of cleanupRateLimits
abbrev pub cleanup_rate_limits : ℕ → LoginLimiter → LoginLimiter
cleanup_rate_limits now s = prune_global_failures now (record s {
  rate_limits =
      keep (λ (e : Text × RateLimitEntry). not (ltb login_failure_memory (now - e.1.last_seen)))
        s.rate_limits;
})
