-- ===== src/Access/Rate.antt =====
-- How many queries of a client the limiter lets through (webgui/internal/dnsserver/acl.go).
use native.Mathlib.Nat.{add-mul, zero-mul, sub_self, mul-le-mul_right}
use resolix.Common.{
  ℕ, ◌+◌, ◌-◌, ◌*◌, ◌≤◌, ◌<◌, ◌≡◌, ◌≢◌, refl, ap, ◌∙◌, Bool, true, false, not, ◌&&◌, Bool-cases,
  ◌⊎◌, inl, inr, Option, none, some, Option-cases, List, [], ◌∷◌, length-keep-le, leb, ltb, ◌==◌,
  ==_iff, nat_comparable, list_comparable, if◌then◌else◌, Text, find, without, keep-Shrinks,
  keep-Unique, arith, if_intro,
}
use resolix.Access.Limiter.{
  billion, RateBucket, RateLimiter, refilled, spent, spend, make_room, allow_found, allow_at_rate,
  cleanup,
}
use resolix.Access.Spent.{
  IsBounded, credit, spend-IsBounded, spend_self, spend_other, initial, IsSplit, make_room-IsSplit,
  without-IsSplit,
}

mul_grow : (a b c q : ℕ) → a ≤ b + c → a * q ≤ b * q + c * q
mul_grow a b c q h = omega (arith, mul-le-mul_right q h, add-mul b c q)

zero_mul : (a q : ℕ) → (a - a) * q ≡ 0
zero_mul a q = ap (λ x. x * q) (sub_self a) ∙ zero-mul q

-- A credit grows by the refill of the time that passes, at most.
credit-later :
    (q s t : ℕ) (o : Option RateBucket) → t ≤ s → credit q s o ≤ credit q t o + (s - t) * q
credit-later q s t none h = omega arith
credit-later q s t (some b) h =
    omega (arith, mul_grow (s - b.last) (t - b.last) (s - t) q (omega (arith, h)))

-- What is admitted is paid from the credit.
spent-credit :
    (q now : ℕ) (b : RateBucket)
    → (if leb billion (refilled now q b) then billion else 0)
        + credit q now (some (spent now (refilled now q b)))
      ≤ credit q now (some b)
spent-credit q now b = ground (arith, zero_mul now q)

-- A call of the limiter, at a time.
pub data Call : Type 0 where
  asks : Text → ℕ → ℕ → Call
  cleans : ℕ → ℕ → Call

abbrev pub time_of : Call → ℕ
time_of (asks key qps now) = now
time_of (cleans idle now) = now

abbrev pub step : RateLimiter → Call → RateLimiter × Bool
step rl (asks key qps now) = allow_at_rate rl key qps now
step rl (cleans idle now) = (cleanup rl idle now, true)

abbrev pub run : RateLimiter → List Call → RateLimiter
run rl [] = rl
run rl (c ∷ calls) = run (step rl c).0 calls

abbrev pub is_of : Text → Call → Bool
is_of k (asks key qps now) = key == k
is_of k (cleans idle now) = false

abbrev pub is_absent : Option RateBucket → Bool
is_absent none = true
is_absent (some b) = false

abbrev pub one_if : Bool → ℕ
one_if b = if b then 1 else 0

-- How many queries of a client are answered with yes.
abbrev pub admitted : Text → RateLimiter → List Call → ℕ
admitted k rl [] = 0
admitted k rl (c ∷ calls) = one_if (is_of k c && (step rl c).1) + admitted k (step rl c).0 calls

-- How many of them find no bucket, so that the client starts with a full one.
abbrev pub starts : Text → RateLimiter → List Call → ℕ
starts k rl [] = 0
starts k rl (c ∷ calls) =
    one_if (is_of k c && is_absent (find k rl.buckets)) + starts k (step rl c).0 calls

abbrev pub end_time : ℕ → List Call → ℕ
end_time t [] = t
end_time t (c ∷ calls) = end_time (time_of c) calls

-- Time does not run back.
abbrev pub IsTimed : ℕ → List Call → Type 0
IsTimed t [] = Unit
IsTimed t (c ∷ calls) = (t ≤ time_of c) × IsTimed (time_of c) calls

-- The client always has the same rate.
abbrev pub IsAtRateCall : Text → ℕ → Call → Type 0
IsAtRateCall k q (asks key qps now) = (key == k) ≡ true → qps ≡ q
IsAtRateCall k q (cleans idle now) = Unit

abbrev pub IsAtRate : Text → ℕ → List Call → Type 0
IsAtRate k q [] = Unit
IsAtRate k q (c ∷ calls) = IsAtRateCall k q c × IsAtRate k q calls

-- What a call of the client costs it, at most, and what a call of another one does to it.
abbrev Paid : Text → ℕ → ℕ → ℕ → RateLimiter → RateLimiter × Bool → Type 0
Paid k q t now rl r =
    one_if r.1 * billion + credit q now (find k r.0.buckets)
    ≤ credit q t (find k rl.buckets)
      + one_if (is_absent (find k rl.buckets)) * (q * billion)
      + (now - t) * q

abbrev pub Kept : Text → RateLimiter → RateLimiter → Type 0
Kept k rl new = (find k new.buckets ≡ find k rl.buckets) ⊎ (find k new.buckets ≡ none)

split-IsBounded :
    (rl : RateLimiter) (key : Text) (now : ℕ) (others : List (Text × RateBucket)) (tokens : ℕ)
    → IsBounded rl
    → IsSplit rl key others
    → IsBounded (spend rl key now others tokens).0
split-IsBounded rl key now others tokens v s =
    spend-IsBounded rl key now others tokens v s.unique s.fresh s.fits

allow_found-IsBounded :
    (rl : RateLimiter) (key : Text) (q now : ℕ)
    → IsBounded rl
    → IsBounded (allow_found rl key q now (find key rl.buckets)).0
allow_found-IsBounded rl key q now v = elim (Option-cases (find key rl.buckets)) [
  | inl h ↦ rw h (
      split-IsBounded rl key now _ (refilled now q (initial q now)) v
        (make_room-IsSplit rl key v h))
  | inr (b, h) ↦
      rw h (split-IsBounded rl key now _ (refilled now q b) v (without-IsSplit rl key b v h))
]

pub step-IsBounded : (rl : RateLimiter) (c : Call) → IsBounded rl → IsBounded (step rl c).0
unfolding allow_at_rate cleanup
step-IsBounded rl (asks key qps now) v =
    if_intro (λ (r : RateLimiter × Bool). IsBounded r.0) (qps == 0) (λ _. v)
      (λ _.
        if_intro (λ (r : RateLimiter × Bool). IsBounded r.0) (key == []) (λ _. v)
          (λ _. allow_found-IsBounded rl key qps now v))
step-IsBounded rl (cleans idle now) v = record {
  unique = keep-Unique _ rl.buckets v.unique;
  room = omega (
    arith,
    length-keep-le (λ (b : Text × RateBucket). not (ltb (b.1.last) (now - idle))) rl.buckets,
    v.room,
  );
  some_room = v.some_room;
}

-- A call that uses a bucket.
spend-pays :
    (rl : RateLimiter) (key : Text) (q now : ℕ) (others : List (Text × RateBucket)) (b : RateBucket)
    → find key others ≡ none
    → one_if (spend rl key now others (refilled now q b)).1 * billion
        + credit q now (find key (spend rl key now others (refilled now q b)).0.buckets)
      ≤ credit q now (some b)
spend-pays rl key q now others b fresh =
    rw (spend_self rl key now others (refilled now q b) fresh)
      (ground (arith, spent-credit q now b))

-- The bucket of another client stays, or goes.
unchanged-pays :
    (q t s : ℕ) (o p : Option RateBucket)
    → t ≤ s
    → (p ≡ o) ⊎ (p ≡ none)
    → 0 * billion + credit q s p ≤ credit q t o + 0 * (q * billion) + (s - t) * q
unchanged-pays q t s o p h (inl e) =
    rw e (omega (arith, credit-later q s t o h, zero-mul (q * billion)))
unchanged-pays q t s o p h (inr e) = rw e (omega arith)

self-pays :
    (k : Text) (q t now : ℕ) (rl : RateLimiter) (o : Option RateBucket)
    → IsBounded rl
    → find k rl.buckets ≡ o
    → t ≤ now
    → one_if (allow_found rl k q now o).1 * billion
        + credit q now (find k (allow_found rl k q now o).0.buckets)
      ≤ credit q t o + one_if (is_absent o) * (q * billion) + (now - t) * q
self-pays k q t now rl none v e h = omega (
  arith,
  spend-pays rl k q now (make_room rl) (initial q now) ((make_room-IsSplit rl k v e).fresh),
  zero_mul now q,
)
self-pays k q t now rl (some b) v e h = omega (
  arith,
  spend-pays rl k q now (without k rl.buckets) b ((without-IsSplit rl k b v e).fresh),
  credit-later q now t (some b) h,
)

other-keeps :
    (k key : Text) (q now : ℕ) (rl : RateLimiter) (o : Option RateBucket)
    → IsBounded rl
    → find key rl.buckets ≡ o
    → (key == k) ≡ false
    → Kept k rl (allow_found rl key q now o).0
other-keeps k key q now rl none v e n =
    rw
      (spend_other rl key k now (make_room rl) (refilled now q (initial q now))
        ((make_room-IsSplit rl key v e).fresh) n)
      ((make_room-IsSplit rl key v e).shrinks k n)
other-keeps k key q now rl (some b) v e n =
    rw
      (spend_other rl key k now (without key rl.buckets) (refilled now q b)
        ((without-IsSplit rl key b v e).fresh) n)
      ((without-IsSplit rl key b v e).shrinks k n)

pub step-keeps :
    (k key : Text) (qps now : ℕ) (rl : RateLimiter)
    → IsBounded rl
    → (key == k) ≡ false
    → Kept k rl (allow_at_rate rl key qps now).0
unfolding allow_at_rate
step-keeps k key qps now rl v n =
    if_intro (λ (r : RateLimiter × Bool). Kept k rl r.0) (qps == 0) (λ _. inl refl)
      (λ _.
        if_intro (λ (r : RateLimiter × Bool). Kept k rl r.0) (key == []) (λ _. inl refl)
          (λ _. other-keeps k key qps now rl (find key rl.buckets) v refl n))

step-pays_self :
    (k : Text) (q t now : ℕ) (rl : RateLimiter)
    → IsBounded rl
    → k ≢ []
    → 0 < q
    → t ≤ now
    → Paid k q t now rl (allow_at_rate rl k q now)
unfolding allow_at_rate
step-pays_self k q t now rl v n p h =
    if_intro (Paid k q t now rl) (q == 0) (λ e. ground (arith, p, e))
      (λ _.
        if_intro (Paid k q t now rl) (k == []) (λ e. elim (n ((==_iff k []).0 e)) [ ])
          (λ _. self-pays k q t now rl (find k rl.buckets) v refl h))

step-pays :
    (k : Text) (q t : ℕ) (rl : RateLimiter) (c : Call)
    → IsBounded rl
    → k ≢ []
    → 0 < q
    → t ≤ time_of c
    → IsAtRateCall k q c
    → one_if (is_of k c && (step rl c).1) * billion
        + credit q (time_of c) (find k (step rl c).0.buckets)
      ≤ credit q t (find k rl.buckets)
        + one_if (is_of k c && is_absent (find k rl.buckets)) * (q * billion)
        + (time_of c - t) * q
unfolding cleanup
step-pays k q t rl (asks key qps now) v n p h r = elim (Bool-cases (key == k)) [
  | inl e ↦
      rw ((==_iff key k).0 e)
        (rw (r e) (rw ((==_iff k k).1 refl) (step-pays_self k q t now rl v n p h)))
  | inr e ↦ rw e (unchanged-pays q t now (find k rl.buckets) _ h (step-keeps k key qps now rl v e))
]
step-pays k q t rl (cleans idle now) v n p h r = unchanged-pays q t now (find k rl.buckets) _ h (
    keep-Shrinks (λ (b : Text × RateBucket). not (ltb (b.1.last) (now - idle))) rl.buckets v.unique
      k)

end_time-ge : (t : ℕ) (calls : List Call) → IsTimed t calls → t ≤ end_time t calls
end_time-ge t [] w = omega arith
end_time-ge t (c ∷ calls) w = omega (arith, w.0, end_time-ge (time_of c) calls w.1)

apart : (t s e q : ℕ) → t ≤ s → s ≤ e → (e - t) * q ≡ (s - t) * q + (e - s) * q
apart t s e q h k =
    let split : e - t ≡ (s - t) + (e - s) = omega (arith, h, k) in
    ap (λ x. x * q) split ∙ add-mul (s - t) (e - s) q

run-pays :
    (k : Text) (q t : ℕ) (rl : RateLimiter) (calls : List Call)
    → IsBounded rl
    → k ≢ []
    → 0 < q
    → IsTimed t calls
    → IsAtRate k q calls
    → admitted k rl calls * billion + credit q (end_time t calls) (find k (run rl calls).buckets)
      ≤ credit q t (find k rl.buckets)
        + starts k rl calls * (q * billion)
        + (end_time t calls - t) * q
run-pays k q t rl [] v n p w r = omega (arith, zero-mul (q * billion))
run-pays k q t rl (c ∷ calls) v n p w r = omega (
  arith,
  step-pays k q t rl c v n p w.0 r.0,
  run-pays k q (time_of c) (step rl c).0 calls (step-IsBounded rl c v) n p w.1 r.1,
  add-mul (one_if (is_of k c && is_absent (find k rl.buckets))) (starts k (step rl c).0 calls)
      (q * billion),
  apart t (time_of c) (end_time (time_of c) calls) q w.0 (end_time-ge (time_of c) calls w.1),
)

run-IsBounded : (rl : RateLimiter) (calls : List Call) → IsBounded rl → IsBounded (run rl calls)
run-IsBounded rl [] v = v
run-IsBounded rl (c ∷ calls) v = run-IsBounded (step rl c).0 calls (step-IsBounded rl c v)

-- From a bounded table, with calls of any clients at times that do not run back, and a client
-- with a key of its own whose positive rate does not change: the queries of the client that are
-- admitted are, in billionths, at most the credit it starts with, a second's worth for each time
-- it asked without a bucket, and the refill of the whole time. The table stays bounded.
pub admitted_le :
    (k : Text) (q t : ℕ) (rl : RateLimiter) (calls : List Call)
    → IsBounded rl
    → k ≢ []
    → 0 < q
    → IsTimed t calls
    → IsAtRate k q calls
    → IsBounded (run rl calls)
      × (admitted k rl calls * billion
          ≤ credit q t (find k rl.buckets)
            + starts k rl calls * (q * billion)
            + (end_time t calls - t) * q)
admitted_le k q t rl calls v n p w r =
    (run-IsBounded rl calls v, omega (arith, run-pays k q t rl calls v n p w r))
