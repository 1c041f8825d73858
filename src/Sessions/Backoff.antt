-- ===== src/Sessions/Backoff.antt =====
-- Which login attempts are rejected (webgui/internal/api/security.go, checkRateLimit and
-- recordFailedLogin).
use native.Mathlib.Nat.{pow-suc}
use resolix.Common.{
  ℕ, zero, suc, ◌*◌, ◌^◌, ◌++◌, keep, ap, ◌+◌, ◌-◌, ◌≤◌, ◌<◌, ◌≡◌, ◌⊎◌, inl, inr, refl, ◌∙◌, Bool,
  false, Option, none, some, List, [], ◌∷◌, length, leb, ltb, ◌==◌, ==_iff, nat_comparable,
  list_comparable, if◌then◌else◌, if_intro, Text, find, without, find-store, find-without, arith,
}
use resolix.Sessions.Login.{
  RateLimitEntry, LoginLimiter, get_rate_limit_backoff, prune_global_failures, check_entry,
  check_rate_limit, oldest_from, evict_oldest_rate_limit, count_failure, record_failed_login,
  reset_rate_limit,
}

-- The failures of an address that are remembered.
abbrev pub failures_of : Option RateLimitEntry → ℕ
failures_of none = 0
failures_of (some e) = e.count

count_failure-find :
    (ip : Text) (at : ℕ) (m : List (Text × RateLimitEntry)) (o : Option RateLimitEntry)
    → find ip (count_failure ip at m o)
      ≡ some (record { count = failures_of o + 1; last_seen = at })
count_failure-find ip at m none = find-store ip ip _ _ ∙ rw ((==_iff ip ip).1 refl) refl
count_failure-find ip at m (some e) = find-store ip ip _ m ∙ rw ((==_iff ip ip).1 refl) refl

evict-find :
    (k : Text) (m : List (Text × RateLimitEntry))
    → (find k (evict_oldest_rate_limit m) ≡ find k m) ⊎ (find k (evict_oldest_rate_limit m) ≡ none)
evict-find k [] = inl refl
evict-find k (e ∷ m) = ground (arith, find-without (oldest_from e m) k (e ∷ m))

-- The failures of another address are not added to.
other-find :
    (ip k : Text) (at : ℕ) (m : List (Text × RateLimitEntry)) (o : Option RateLimitEntry)
    → (ip == k) ≡ false
    → (find k (count_failure ip at m o) ≡ find k m) ⊎ (find k (count_failure ip at m o) ≡ none)
other-find ip k at m (some e) n = inl (find-store ip k _ m ∙ rw n refl)
other-find ip k at m none n =
    rw
      (find-store ip k (record { count = 1; last_seen = at })
        (if leb 10000 (length m) then evict_oldest_rate_limit m else m))
      (rw n (
        if_intro (λ l. (find k l ≡ find k m) ⊎ (find k l ≡ none)) (leb 10000 (length m))
          (λ _. evict-find k m) (λ _. inl refl)))

-- The seconds to wait after so many failures.
abbrev pub wait_of : ℕ → ℕ
wait_of zero = 0
wait_of (suc zero) = 0
wait_of (suc (suc zero)) = 1
wait_of (suc (suc (suc zero))) = 2
wait_of (suc (suc (suc (suc zero)))) = 4
wait_of (suc (suc (suc (suc (suc zero))))) = 8
wait_of (suc (suc (suc (suc (suc (suc zero)))))) = 16
wait_of (suc (suc (suc (suc (suc (suc (suc zero))))))) = 32
wait_of (suc (suc (suc (suc (suc (suc (suc (suc zero)))))))) = 64
wait_of (suc (suc (suc (suc (suc (suc (suc (suc (suc zero))))))))) = 128
wait_of (suc (suc (suc (suc (suc (suc (suc (suc (suc (suc zero)))))))))) = 256
wait_of (suc (suc (suc (suc (suc (suc (suc (suc (suc (suc (suc n))))))))))) = 300

power_grows : (n : ℕ) → 300 < 2 ^ (n + 9)
power_grows zero = omega arith
power_grows (suc n) =
    let e : suc n + 9 ≡ suc (n + 9) = omega arith in
    rw e (omega (arith, power_grows n, pow-suc 2 (n + 9)))

get_rate_limit_backoff-wait_of : (n : ℕ) → get_rate_limit_backoff n ≡ wait_of n * 1000000000
unfolding get_rate_limit_backoff
get_rate_limit_backoff-wait_of zero = refl
get_rate_limit_backoff-wait_of (suc zero) = refl
get_rate_limit_backoff-wait_of (suc (suc zero)) = refl
get_rate_limit_backoff-wait_of (suc (suc (suc zero))) = refl
get_rate_limit_backoff-wait_of (suc (suc (suc (suc zero)))) = refl
get_rate_limit_backoff-wait_of (suc (suc (suc (suc (suc zero))))) = refl
get_rate_limit_backoff-wait_of (suc (suc (suc (suc (suc (suc zero)))))) = refl
get_rate_limit_backoff-wait_of (suc (suc (suc (suc (suc (suc (suc zero))))))) = refl
get_rate_limit_backoff-wait_of (suc (suc (suc (suc (suc (suc (suc (suc zero)))))))) = refl
get_rate_limit_backoff-wait_of (suc (suc (suc (suc (suc (suc (suc (suc (suc zero))))))))) = refl
get_rate_limit_backoff-wait_of (suc (suc (suc (suc (suc (suc (suc (suc (suc (suc zero)))))))))) =
    refl
get_rate_limit_backoff-wait_of (suc (suc (suc (suc (suc (suc (suc (suc (suc (suc (suc n))))))))))) =
    let many : leb (suc (suc (suc (suc (suc (suc (suc (suc (suc (suc (suc n))))))))))) 1 ≡ false =
      ground arith in
    let power : (suc (suc (suc (suc (suc (suc (suc (suc (suc (suc (suc n))))))))))) - 2 ≡ n + 9 =
      omega arith in
    rw many (rw power (ground (arith, power_grows n)))

-- The failures in these times that are less than 15 minutes old.
abbrev pub recent : ℕ → List ℕ → ℕ
recent now [] = 0
recent now (at ∷ times) = (if ltb now (at + 900000000000) then 1 else 0) + recent now times

-- What an address waits whose last failure, the n-th, is so long ago: nothing after an hour, and
-- five minutes in all if there are too many failures.
abbrev pub decision : Bool → ℕ → ℕ → Option ℕ
decision exhausted n elapsed =
    let wait : ℕ = if exhausted then 300000000000 else wait_of n * 1000000000 in
    if ltb 3600000000000 elapsed
    then none
    else if ltb elapsed wait
    then some (wait - elapsed)
    else none

length-recent :
    (now : ℕ) (times : List ℕ)
    → length (keep (λ at. ltb now (at + 900000000000)) times) ≡ recent now times
length-recent now [] = refl
length-recent now (at ∷ times) = ground (arith, length-recent now times)

-- What was dropped at an earlier time is not missed.
recent_pruned :
    (at now : ℕ) (times : List ℕ)
    → at ≤ now
    → recent now (keep (λ t. ltb at (t + 900000000000)) times) ≡ recent now times
recent_pruned at now [] h = refl
recent_pruned at now (t ∷ times) h = ground (arith, recent_pruned at now times h)

checked-decision :
    (ip : Text) (at now n : ℕ) (s : LoginLimiter) (o : Option RateLimitEntry)
    → o ≡ some (record { count = n + 1; last_seen = at })
    → (check_entry ip now (prune_global_failures now s) o).1
      ≡ decision (leb 50 (recent now s.global_failures)) (n + 1) (now - at)
checked-decision ip at now n s o h = rw h (
    rw (length-recent now s.global_failures)
      (rw (get_rate_limit_backoff-wait_of (n + 1)) (ground arith)))

checked-none :
    (ip : Text) (now : ℕ) (s : LoginLimiter) (o : Option RateLimitEntry)
    → o ≡ none
    → (check_entry ip now s o).1 ≡ none
checked-none ip now s o h = rw h refl

absent : (m n : Option RateLimitEntry) → (n ≡ m) ⊎ (n ≡ none) → m ≡ none → n ≡ none
absent m n (inl e) h = e ∙ h
absent m n (inr e) h = e

-- After a failed login, at a later time or the same: its address waits the seconds of its failures,
-- of which this one is the last, none, none, 1, 2, 4 and so on doubled up to 256, and then 300, or
-- 300 if 50 logins or more failed less than 15 minutes ago, this one included; it is not rejected
-- any more when more than an hour has passed. Another address that has no failures is not rejected,
-- even then, and neither is one that logs in.
pub check-record :
    (ip other : Text) (at now : ℕ) (s : LoginLimiter)
    → at ≤ now
    → (ip == other) ≡ false
    → find other s.rate_limits ≡ none
    → let failed = record_failed_login ip at s in
      ((check_rate_limit ip now failed).1
        ≡ decision
            (leb 50 (recent now (s.global_failures ++ at ∷ [])))
            (failures_of (find ip s.rate_limits) + 1)
            (now - at))
      × (((check_rate_limit other now failed).1 ≡ none)
          × ((check_rate_limit ip now (reset_rate_limit ip failed)).1 ≡ none))
unfolding check_rate_limit record_failed_login
check-record ip other at now s later n h =
    let failed = record_failed_login ip at s in
    (
      checked-decision ip at now (failures_of (find ip s.rate_limits)) failed
            (find ip failed.rate_limits)
            (count_failure-find ip at s.rate_limits (find ip s.rate_limits))
          ∙ ap (λ k. decision (leb 50 k) (failures_of (find ip s.rate_limits) + 1) (now - at))
              (recent_pruned at now (s.global_failures ++ at ∷ []) later),
      (
        checked-none other now (prune_global_failures now failed) (find other failed.rate_limits) (
            absent (find other s.rate_limits) (find other failed.rate_limits)
              (other-find ip other at s.rate_limits (find ip s.rate_limits) n) h),
        checked-none ip now (prune_global_failures now (reset_rate_limit ip failed))
            (find ip (without ip failed.rate_limits))
            (find-without ip ip failed.rate_limits ∙ rw ((==_iff ip ip).1 refl) refl),
      ),
    )
