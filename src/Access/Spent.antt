-- ===== src/Access/Spent.antt =====
-- What one call of the limiter does to the bucket of a client
-- (webgui/internal/dnsserver/acl.go, allowAtRate and cleanup).
use resolix.Common.{
  ℕ, ◌+◌, ◌-◌, ◌*◌, ◌≤◌, ◌<◌, ◌≡◌, refl, ◌∙◌, false, ◌⊎◌, inl, Option, none, some, List, [], ◌∷◌,
  length, length-append, length-drop, leb, ◌==◌, ==_iff, nat_comparable, list_comparable, Text,
  find, without, Unique, find-append_one, append_one-Unique, Shrinks, Shrinks-none,
  drop_first-Shrinks, drop_first-Unique, find-without, without-Unique, length-without, arith,
  if_intro,
}
use resolix.Access.Limiter.{billion, RateBucket, RateLimiter, spent, spend, make_room}

-- The table: a bucket for each client at most, and no more than there may be.
pub record IsBounded (rl : RateLimiter) : Type 0 where
  pub unique : Unique rl.buckets
  pub room : length rl.buckets ≤ rl.max_buckets
  pub some_room : 0 < rl.max_buckets

-- The tokens of a bucket with what has come in since, before the cap.
abbrev pub credit : ℕ → ℕ → Option RateBucket → ℕ
credit qps t none = 0
credit qps t (some b) = b.tokens + (t - b.last) * qps

make_room-Shrinks : (rl : RateLimiter) → IsBounded rl → Shrinks rl.buckets (make_room rl)
make_room-Shrinks rl v k =
    if_intro (λ m. (find k m ≡ find k rl.buckets) ⊎ (find k m ≡ none))
      (leb rl.max_buckets (length rl.buckets)) (λ _. drop_first-Shrinks rl.buckets v.unique k)
      (λ _. inl refl)

make_room-Unique : (rl : RateLimiter) → IsBounded rl → Unique (make_room rl)
make_room-Unique rl v =
    if_intro (λ m. Unique m) (leb rl.max_buckets (length rl.buckets))
      (λ _. drop_first-Unique rl.buckets v.unique) (λ _. v.unique)

make_room-lt : (rl : RateLimiter) → IsBounded rl → length (make_room rl) < rl.max_buckets
make_room-lt rl v =
    if_intro (λ m. length m < rl.max_buckets) (leb rl.max_buckets (length rl.buckets))
      (λ e. omega (arith, length-drop 1 rl.buckets, v.room, v.some_room)) (λ e. ground (arith, e))

pub spend-IsBounded :
    (rl : RateLimiter) (key : Text) (now : ℕ) (others : List (Text × RateBucket)) (tokens : ℕ)
    → IsBounded rl
    → Unique others
    → find key others ≡ none
    → length others < rl.max_buckets
    → IsBounded (spend rl key now others tokens).0
spend-IsBounded rl key now others tokens v u fresh fits = record {
  unique = append_one-Unique key _ others fresh u;
  room = omega (arith, length-append others ((key, spent now tokens) ∷ []), fits);
  some_room = v.some_room;
}

-- The bucket of the client that asked, and those of the others.
pub spend_self :
    (rl : RateLimiter) (key : Text) (now : ℕ) (others : List (Text × RateBucket)) (tokens : ℕ)
    → find key others ≡ none
    → find key (spend rl key now others tokens).0.buckets ≡ some (spent now tokens)
spend_self rl key now others tokens fresh =
    find-append_one key key _ others fresh ∙ rw ((==_iff key key).1 refl) refl

pub spend_other :
    (rl : RateLimiter) (key k : Text) (now : ℕ) (others : List (Text × RateBucket)) (tokens : ℕ)
    → find key others ≡ none
    → (key == k) ≡ false
    → find k (spend rl key now others tokens).0.buckets ≡ find k others
spend_other rl key k now others tokens fresh e = find-append_one key k _ others fresh ∙ rw e refl

abbrev pub initial : ℕ → ℕ → RateBucket
initial qps now = record { tokens = qps * billion; last = now }

-- The two ways of a call that is limited, in one: a bucket, and the others without it.
pub record IsSplit (rl : RateLimiter) (key : Text) (others : List (Text × RateBucket))
    : Type 0 where
  pub unique : Unique others
  pub fresh : find key others ≡ none
  pub fits : length others < rl.max_buckets
  pub shrinks :
      (k : Text) → (key == k) ≡ false → (find k others ≡ find k rl.buckets) ⊎ (find k others ≡ none)

pub make_room-IsSplit :
    (rl : RateLimiter) (key : Text)
    → IsBounded rl
    → find key rl.buckets ≡ none
    → IsSplit rl key (make_room rl)
make_room-IsSplit rl key v h = record {
  unique = make_room-Unique rl v;
  fresh = Shrinks-none rl.buckets (make_room rl) key (make_room-Shrinks rl v) h;
  fits = make_room-lt rl v;
  shrinks = λ k _. make_room-Shrinks rl v k;
}

pub without-IsSplit :
    (rl : RateLimiter) (key : Text) (b : RateBucket)
    → IsBounded rl
    → find key rl.buckets ≡ some b
    → IsSplit rl key (without key rl.buckets)
without-IsSplit rl key b v h = record {
  unique = without-Unique key rl.buckets v.unique;
  fresh = find-without key key rl.buckets ∙ rw ((==_iff key key).1 refl) refl;
  fits = omega (arith, length-without key b rl.buckets v.unique h, v.room);
  shrinks = λ k e. inl (find-without key k rl.buckets ∙ rw e refl);
}
