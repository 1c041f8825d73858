-- ===== src/Access/Limiter.antt =====
-- The token buckets (webgui/internal/dnsserver/acl.go, rateLimiter). Tokens are counted in
-- billionths, in which the refill of a time in nanoseconds is a whole number; the rounding of
-- float64 is not modelled. The list `order` and the map `buckets` are one association list, the
-- bucket used longest ago first.
use resolix.Common.{
  ℕ, ◌+◌, ◌-◌, ◌*◌, Bool, true, not, Option, none, some, List, [], ◌∷◌, ◌++◌, drop, length, keep,
  leb, ltb, min, ◌==◌, nat_comparable, list_comparable, if◌then◌else◌, Text, find, without,
}

-- A token, and a second.
abbrev pub billion : ℕ
billion = 1000000000

abbrev pub max_rate_limit_buckets : ℕ
max_rate_limit_buckets = 65536

pub record RateBucket : Type 0 where
  pub tokens : ℕ
  pub last : ℕ

pub record RateLimiter : Type 0 where
  pub qps : ℕ
  pub max_buckets : ℕ
  pub buckets : List (Text × RateBucket)

abbrev pub new_rate_limiter : ℕ → RateLimiter
new_rate_limiter qps = record { qps = qps; max_buckets = max_rate_limit_buckets; buckets = [] }

-- The refill, which is capped at the burst of one second.
abbrev pub refilled : ℕ → ℕ → RateBucket → ℕ
refilled now qps b = min (b.tokens + (now - b.last) * qps) (qps * billion)

-- The bucket afterwards, with one token less if there was one.
abbrev pub spent : ℕ → ℕ → RateBucket
spent now tokens = record {
  tokens = if leb billion tokens then tokens - billion else tokens;
  last = now;
}

-- The end of allowAtRate: the bucket is used, and moves to the back.
abbrev pub spend : RateLimiter → Text → ℕ → List (Text × RateBucket) → ℕ → RateLimiter × Bool
spend rl key now others tokens =
    (record rl { buckets = others ++ (key, spent now tokens) ∷ [] }, leb billion tokens)

-- A new bucket takes the place of the oldest one if there are too many.
abbrev pub make_room : RateLimiter → List (Text × RateBucket)
make_room rl = if leb rl.max_buckets (length rl.buckets) then drop 1 rl.buckets else rl.buckets

abbrev pub allow_found : RateLimiter → Text → ℕ → ℕ → Option RateBucket → RateLimiter × Bool
allow_found rl key qps now none =
    spend rl key now (make_room rl)
      (refilled now qps (record { tokens = qps * billion; last = now }))
allow_found rl key qps now (some b) = spend rl key now (without key rl.buckets) (refilled now qps b)

-- allowAtRate for the key of the client; a rate of 0 stands for any that is not positive.
unfoldable pub allow_at_rate : RateLimiter → Text → ℕ → ℕ → RateLimiter × Bool
allow_at_rate rl key qps now =
    if qps == 0
    then (rl, true)
    else if key == []
    then (rl, true)
    else allow_found rl key qps now (find key rl.buckets)

-- allow
abbrev pub allow : RateLimiter → Text → ℕ → RateLimiter × Bool
allow rl key now = allow_at_rate rl key rl.qps now

-- cleanup
unfoldable pub cleanup : RateLimiter → ℕ → ℕ → RateLimiter
cleanup rl max_idle now = record rl {
  buckets = keep (λ (b : Text × RateBucket). not (ltb (b.1.last) (now - max_idle))) rl.buckets;
}
