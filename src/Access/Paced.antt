-- ===== src/Access/Paced.antt =====
-- A client that keeps to its rate is served (webgui/internal/dnsserver/acl.go, allowAtRate).
use mathlib.Core.Path.{subst}
use native.Mathlib.Nat.{mul-le-mul_right}
use resolix.Common.{
  ℕ, ◌+◌, ◌-◌, ◌*◌, ◌≤◌, ◌<◌, ◌≡◌, refl, ap, Bool, true, Bool-cases, inl, inr, Option, none, some,
  List, [], ◌∷◌, ◌==◌, ==_iff, nat_comparable, list_comparable, if◌then◌else◌, Text, find, without,
  keep-Shrinks, arith, if_intro,
}
use resolix.Access.Limiter.{
  billion, RateBucket, RateLimiter, refilled, make_room, allow_found, allow_at_rate, cleanup,
}
use resolix.Access.Spent.{IsBounded, spend_self, initial, make_room-IsSplit, without-IsSplit}
use resolix.Access.Rate.{
  Call, asks, cleans, is_of, admitted, one_if, IsTimed, IsAtRate, Kept, step-keeps, step-IsBounded,
}

-- The queries of the client stand at least the time of a token apart, the first one from `last`.
abbrev pub IsPaced : Text → ℕ → ℕ → List Call → Type 0
IsPaced k q last [] = Unit
IsPaced k q last (asks key qps now ∷ calls) =
    ((key == k) ≡ true → billion ≤ (now - last) * q)
    × IsPaced k q (if key == k then now else last) calls
IsPaced k q last (cleans idle now ∷ calls) = IsPaced k q last calls

-- The queries of the client.
abbrev pub asked : Text → List Call → ℕ
asked k [] = 0
asked k (c ∷ calls) = one_if (is_of k c) + asked k calls

-- The bucket was not used after that time.
abbrev pub IsOld : ℕ → Option RateBucket → Type 0
IsOld last none = Unit
IsOld last (some b) = b.last ≤ last

Kept-IsOld :
    (k : Text) (rl new : RateLimiter) (last : ℕ)
    → Kept k rl new
    → IsOld last (find k rl.buckets)
    → IsOld last (find k new.buckets)
Kept-IsOld k rl new last (inl e) o = rw e o
Kept-IsOld k rl new last (inr e) o = rw e tt

found-paced :
    (k : Text) (q last now : ℕ) (rl : RateLimiter) (o : Option RateBucket)
    → 0 < q
    → IsOld last o
    → billion ≤ (now - last) * q
    → (allow_found rl k q now o).1 ≡ true
found-paced k q last now rl none p o g = ground (arith, p)
found-paced k q last now rl (some b) p o g =
    let later : now - last ≤ now - b.last = omega (arith, o) in
    ground (arith, p, g, mul-le-mul_right q later)

paced-admitted :
    (k : Text) (q last now : ℕ) (rl : RateLimiter)
    → 0 < q
    → IsOld last (find k rl.buckets)
    → billion ≤ (now - last) * q
    → (allow_at_rate rl k q now).1 ≡ true
unfolding allow_at_rate
paced-admitted k q last now rl p o g =
    if_intro (λ (r : RateLimiter × Bool). r.1 ≡ true) (q == 0) (λ _. refl)
      (λ _.
        if_intro (λ (r : RateLimiter × Bool). r.1 ≡ true) (k == []) (λ _. refl)
          (λ _. found-paced k q last now rl (find k rl.buckets) p o g))

found-IsOld :
    (k : Text) (q now : ℕ) (rl : RateLimiter) (o : Option RateBucket)
    → IsBounded rl
    → find k rl.buckets ≡ o
    → IsOld now (find k (allow_found rl k q now o).0.buckets)
found-IsOld k q now rl none v e =
    rw
      (spend_self rl k now (make_room rl) (refilled now q (initial q now))
        ((make_room-IsSplit rl k v e).fresh))
      (omega arith)
found-IsOld k q now rl (some b) v e =
    rw
      (spend_self rl k now (without k rl.buckets) (refilled now q b)
        ((without-IsSplit rl k b v e).fresh))
      (omega arith)

later-IsOld : (s t : ℕ) (o : Option RateBucket) → s ≤ t → IsOld s o → IsOld t o
later-IsOld s t none h o = tt
later-IsOld s t (some b) h o = omega (arith, h, o)

self-IsOld :
    (k : Text) (q last now : ℕ) (rl : RateLimiter)
    → IsBounded rl
    → last ≤ now
    → IsOld last (find k rl.buckets)
    → IsOld now (find k (allow_at_rate rl k q now).0.buckets)
unfolding allow_at_rate
self-IsOld k q last now rl v h o =
    let old : IsOld now (find k rl.buckets) = later-IsOld last now (find k rl.buckets) h o in
    if_intro (λ (r : RateLimiter × Bool). IsOld now (find k r.0.buckets)) (q == 0) (λ _. old)
      (λ _.
        if_intro (λ (r : RateLimiter × Bool). IsOld now (find k r.0.buckets)) (k == []) (λ _. old)
          (λ _. found-IsOld k q now rl (find k rl.buckets) v refl))

-- In a bounded table whose bucket of the client, if there is one, was last used at `last` or
-- before, with calls at times that do not run back, from then on: when the client's queries are
-- at its own positive rate and each is at least the time of a token after the one before, every
-- one of them is admitted, whatever the other clients ask and whenever the table is cleaned.
pub admitted-asked :
    (k : Text) (q last t : ℕ) (rl : RateLimiter) (calls : List Call)
    → IsBounded rl
    → 0 < q
    → IsOld last (find k rl.buckets)
    → last ≤ t
    → IsTimed t calls
    → IsAtRate k q calls
    → IsPaced k q last calls
    → admitted k rl calls ≡ asked k calls
unfolding cleanup
admitted-asked k q last t rl [] v p o l w r g = refl
admitted-asked k q last t rl (asks key qps now ∷ calls) v p o l w r g =
    elim (Bool-cases (key == k)) [
      | inl e ↦ rw ((==_iff key k).0 e) (
          rw (r.0 e) (
            rw ((==_iff k k).1 refl) (
              rw (paced-admitted k q last now rl p o (g.0 e)) (
                ap (λ n. 1 + n)
                  (admitted-asked k q now now (allow_at_rate rl k q now).0 calls
                    (step-IsBounded rl (asks k q now) v) p
                    (self-IsOld k q last now rl v (omega (arith, l, w.0)) o) (omega arith) w.1 r.1
                    (subst (λ b. IsPaced k q (if b then now else last) calls) e g.1))))))
      | inr e ↦ rw e (
          ap (λ n. 0 + n)
            (admitted-asked k q last now (allow_at_rate rl key qps now).0 calls
              (step-IsBounded rl (asks key qps now) v) p
              (Kept-IsOld k rl (allow_at_rate rl key qps now).0 last
                (step-keeps k key qps now rl v e) o)
              (omega (arith, l, w.0)) w.1 r.1
              (subst (λ b. IsPaced k q (if b then now else last) calls) e g.1)))
    ]
admitted-asked k q last t rl (cleans idle now ∷ calls) v p o l w r g =
    ap (λ n. 0 + n)
      (admitted-asked k q last now (cleanup rl idle now) calls
        (step-IsBounded rl (cleans idle now) v) p
        (Kept-IsOld k rl (cleanup rl idle now) last (keep-Shrinks _ rl.buckets v.unique k) o)
        (omega (arith, l, w.0)) w.1 r.1 g)
