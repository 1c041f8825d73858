-- ===== src/Forwarder/Rounds.antt =====
-- Whole rounds of the delivery loop (webgui/internal/forwarder/lifecycle.go, Start, and the
-- back-off of controller_transport.go).
use mathlib.Core.Path.{subst}
use resolix.Common.{
  ℕ, zero, suc, ◌+◌, ◌≤◌, ◌<◌, ◌≡◌, refl, ap, ap₂, sym, ◌∙◌, min, Bool-cases, inl, inr, ◌&&◌,
  if_intro, List, [], ◌∷◌, arith, length, length-take, length-drop, take-append-drop, take, drop,
  if◌then◌else◌, false, ltb, leb, ◌==◌, ◌*◌, ◌-◌, ◌^◌, pos, nat_comparable,
}
use resolix.Forwarder.Queue.{
  BacklogItem, Config, Forwarder, finish_in_flight, requeue_batch, max_forward_batch_size,
}
use resolix.Forwarder.Delivery.{
  Outcome, accepted, unreachable, batch_size, take_batch, settle_accepted, settle, settle_failed,
  to_int64, cap_and_jitter, give_up, retry, answer, count_sent, finish_sent, count_given_up,
  calculate_backoff,
}

module _ {E : Type 0} where
  -- One turn of the loop with the given answer of the controller: nothing is sent while the queue
  -- is empty.
  unfoldable pub round : Outcome → Forwarder E → Forwarder E
  round o f = if length f.backlog == 0 then f else settle (take_batch f) o (batch_size f)

  abbrev pub rounds : ℕ → Outcome → Forwarder E → Forwarder E
  rounds zero o f = f
  rounds (suc n) o f = rounds n o (round o f)

  accepted-adaptive :
      (f : Forwarder E)
      → (settle (take_batch f) accepted (batch_size f)).adaptive_batch
        ≡ min max_forward_batch_size (batch_size f + 25)
  unfolding settle answer settle_accepted count_sent finish_sent take_batch finish_in_flight
      batch_size
  accepted-adaptive f =
      elim (Bool-cases (leb (batch_size f) (length (take (batch_size f) f.backlog)))) [
        | inl e ↦ rw e refl
        | inr e ↦ absurd (ground (arith, length-take (batch_size f) f.backlog))
      ]

  -- A success lowers the size of the next batch wherever the queue was shorter than the size by
  -- more than 25, although the batch was taken in full and accepted.
  pub round-shrinks :
      (f : Forwarder E)
      → 0 < length f.backlog
      → length f.backlog + 25 < f.adaptive_batch
      → f.adaptive_batch ≤ max_forward_batch_size
      → (round accepted f).adaptive_batch < f.adaptive_batch
  unfolding round batch_size
  round-shrinks f some_left short bounded = ground (arith, accepted-adaptive f)

  -- What a round with an accepted batch does to the account.
  record IsDelivered (f g : Forwarder E) (n : ℕ) : Type 0 where
    pub sent : g.sent ≡ f.sent + n
    pub left : g.backlog ≡ drop n f.backlog
    pub dropped : g.dropped ≡ f.dropped

  batch_size_pos : (f : Forwarder E) → 0 < length f.backlog → 0 < batch_size f
  unfolding batch_size
  batch_size_pos f some_left = ground arith

  batch_size_le : (f : Forwarder E) → batch_size f ≤ length f.backlog
  unfolding batch_size
  batch_size_le f = ground arith

  accepted-IsDelivered :
      (f : Forwarder E)
      → IsDelivered f (settle (take_batch f) accepted (batch_size f)) (batch_size f)
  unfolding settle answer settle_accepted count_sent finish_sent take_batch finish_in_flight
  accepted-IsDelivered f =
      if_intro (λ (g : Forwarder E). IsDelivered f g (batch_size f))
        (leb (batch_size f) (length (take (batch_size f) f.backlog)))
        (λ _. record { sent = taken; left = refl; dropped = refl })
        (λ _. record { sent = taken; left = refl; dropped = refl })
    where
      short : batch_size f ≤ length f.backlog
      short = batch_size_le f

      taken : f.sent + length (take (batch_size f) f.backlog) ≡ f.sent + batch_size f
      taken = omega (arith, length-take (batch_size f) f.backlog, short)

  nil_of-length : (xs : List (BacklogItem E)) → length xs ≤ 0 → xs ≡ []
  nil_of-length [] p = refl
  nil_of-length (x ∷ xs) p = absurd (omega arith)

  round-nonempty :
      (o : Outcome) (f : Forwarder E)
      → 0 < length f.backlog
      → round o f ≡ settle (take_batch f) o (batch_size f)
  unfolding round
  round-nonempty o f p = elim (Bool-cases (length f.backlog == 0)) [
    | inl e ↦ absurd (ground (arith, e))
    | inr e ↦ rw e refl
  ]

  -- What `n` rounds with accepted batches have done.
  pub record IsDrained (f g : Forwarder E) : Type 0 where
    pub left : g.backlog ≡ []
    pub sent : g.sent ≡ f.sent + length f.backlog
    pub dropped : g.dropped ≡ f.dropped

  IsDelivered-IsDrained :
      (f g h : Forwarder E) (n : ℕ)
      → n ≤ length f.backlog
      → IsDelivered f g n
      → IsDrained g h
      → IsDrained f h
  IsDelivered-IsDrained f g h n some_left one rest = record {
    left = rest.left;
    sent = omega (arith, rest.sent, one.sent, ap length one.left, length-drop n f.backlog);
    dropped = rest.dropped ∙ one.dropped;
  }

  round_empty : (o : Outcome) (f : Forwarder E) → length f.backlog ≤ 0 → round o f ≡ f
  unfolding round
  round_empty o f p = elim (Bool-cases (length f.backlog == 0)) [
    | inl e ↦ rw e refl
    | inr e ↦ absurd (ground (arith, e))
  ]

  rounds_empty : (n : ℕ) (f : Forwarder E) → length f.backlog ≤ 0 → rounds n accepted f ≡ f
  rounds_empty zero f p = refl
  rounds_empty (suc n) f p = ap (rounds n accepted) (round_empty accepted f p) ∙ rounds_empty n f p

  -- Whatever the queue holds, as many rounds as it has events, each accepted by the controller,
  -- empty it: every event has been sent and none dropped.
  pub rounds-IsDrained :
      (n : ℕ) (f : Forwarder E) → length f.backlog ≤ n → IsDrained f (rounds n accepted f)
  rounds-IsDrained zero f p = record {
    left = nil_of-length f.backlog p;
    sent = omega (arith, p);
    dropped = refl;
  }
  rounds-IsDrained (suc n) f p = elim (Bool-cases (ltb 0 (length f.backlog))) [
    | inl some_left ↦
        let b = batch_size_pos f (ground (arith, some_left)) in
        let one = accepted-IsDelivered f in
        rw (round-nonempty accepted f (ground (arith, some_left))) (
          IsDelivered-IsDrained f _ _ (batch_size f) (batch_size_le f) one (
            rounds-IsDrained n _
              (omega (arith, ap length one.left, length-drop (batch_size f) f.backlog, b, p))))
    | inr none_left ↦ rw (rounds_empty (suc n) f (ground (arith, none_left))) (record {
      left = nil_of-length f.backlog (ground (arith, none_left));
      sent = ground (arith, none_left);
      dropped = refl;
    })
  ]

  -- A round that failed for now: all is as before, but for the two counters.
  record IsRetried (f g : Forwarder E) : Type 0 where
    pub config : g.config ≡ f.config
    pub left : g.backlog ≡ f.backlog
    pub adaptive : g.adaptive_batch ≡ f.adaptive_batch
    pub dropped : g.dropped ≡ f.dropped
    pub sent : g.sent ≡ f.sent
    pub attempt : g.backoff_attempt ≡ f.backoff_attempt + 1
    pub retries : g.retries ≡ f.retries + 1

  -- The batch at the head of the queue was given up.
  pub record IsGivenUp (f g : Forwarder E) (retried : ℕ) : Type 0 where
    pub left : g.backlog ≡ drop (batch_size f) f.backlog
    pub dropped : g.dropped ≡ f.dropped + batch_size f
    pub sent : g.sent ≡ f.sent
    pub attempt : g.backoff_attempt ≡ 0
    pub retries : g.retries ≡ f.retries + retried

  failed-IsRetried :
      (f : Forwarder E)
      → f.backoff_attempt < f.config.max_retry_attempts
      → IsRetried f (settle (take_batch f) unreachable (batch_size f))
  unfolding settle answer settle_failed retry requeue_batch take_batch
  failed-IsRetried f more =
      if_intro (IsRetried f)
        (ltb 0 f.config.max_retry_attempts && leb f.config.max_retry_attempts f.backoff_attempt)
        (λ over. absurd (ground (arith, over)))
        (λ _. record {
          config = refl;
          left = take-append-drop (batch_size f) f.backlog;
          adaptive = refl;
          dropped = refl;
          sent = refl;
          attempt = refl;
          retries = refl;
        })

  failed-IsGivenUp :
      (f : Forwarder E)
      → 0 < f.config.max_retry_attempts
      → f.config.max_retry_attempts ≤ f.backoff_attempt
      → IsGivenUp f (settle (take_batch f) unreachable (batch_size f)) 0
  unfolding settle answer settle_failed give_up count_given_up finish_in_flight take_batch
  failed-IsGivenUp f limited over =
      if_intro (λ (g : Forwarder E). IsGivenUp f g 0)
        (ltb 0 f.config.max_retry_attempts && leb f.config.max_retry_attempts f.backoff_attempt)
        (λ _. record {
          left = refl;
          dropped = omega (arith, length-take (batch_size f) f.backlog, batch_size_le f);
          sent = refl;
          attempt = refl;
          retries = omega arith;
        })
        (λ fewer. absurd (ground (arith, fewer)))

  same_batch : (f g : Forwarder E) → IsRetried f g → batch_size g ≡ batch_size f
  unfolding batch_size
  same_batch f g r = ground (arith, r.adaptive, ap length r.left)

  retried-IsGivenUp :
      (f g h : Forwarder E) (n : ℕ) → IsRetried f g → IsGivenUp g h n → IsGivenUp f h (suc n)
  retried-IsGivenUp f g h n r v =
      let same : batch_size g ≡ batch_size f = same_batch f g r in
      record {
        left = v.left ∙ ap₂ drop same r.left;
        dropped = omega (arith, v.dropped, r.dropped, same);
        sent = v.sent ∙ r.sent;
        attempt = v.attempt;
        retries = omega (arith, v.retries, r.retries);
      }

  -- While the controller cannot be reached, a batch is tried until its attempts are used up, and
  -- then it is dropped: after `n + 1` more rounds, where `n` attempts are left of a limit that is
  -- set, exactly the events of the batch at the head of the queue are gone, each counted as
  -- dropped, the `n` failures are counted as retries, and the attempts start again from 0.
  pub rounds-IsGivenUp :
      (n : ℕ) (f : Forwarder E)
      → 0 < length f.backlog
      → 0 < f.config.max_retry_attempts
      → f.backoff_attempt + n ≡ f.config.max_retry_attempts
      → IsGivenUp f (rounds (suc n) unreachable f) n
  rounds-IsGivenUp zero f some_left limited left =
      rw (round-nonempty unreachable f some_left) (failed-IsGivenUp f limited (omega (arith, left)))
  rounds-IsGivenUp (suc n) f some_left limited left =
      let r = failed-IsRetried f (omega (arith, left)) in
      subst (λ g. IsGivenUp f (rounds (suc n) unreachable g) (suc n))
        (sym (round-nonempty unreachable f some_left))
        (retried-IsGivenUp f _ _ n r (
          rounds-IsGivenUp n _ (omega (arith, ap length r.left, some_left))
            (omega (arith, ap (λ (c : Config). c.max_retry_attempts) r.config, limited))
            (omega (arith, ap (λ (c : Config). c.max_retry_attempts) r.config, r.attempt, left))))

abbrev interval : ℕ → ℕ
interval initial = if initial == 0 then 1000000000 else initial

-- The wait that is meant: the interval doubled with each of the first six attempts, at most 30
-- seconds, and the jitter.
abbrev pub wait : ℕ → ℕ → ℕ → ℕ
wait attempt initial jitter =
    min (interval initial * 2 ^ (min attempt 6 - 1)) 30000000000 + jitter * 1000000

small_int64 : (n : ℕ) → n < 2 ^ 63 → to_int64 n ≡ pos n
small_int64 n h = ground (arith, h)

capped :
    (n jitter : ℕ)
    → n < 2 ^ 63
    → cap_and_jitter (to_int64 n) jitter ≡ pos (min n 30000000000 + jitter)
capped n jitter h = ap (λ i. cap_and_jitter i jitter) (small_int64 n h) ∙ ground arith

backoff-wait :
    (attempt initial jitter : ℕ)
    → 0 < attempt
    → initial < 2 ^ 58
    → calculate_backoff attempt initial jitter ≡ pos (wait attempt initial jitter)
unfolding calculate_backoff
backoff-wait zero initial jitter some small = absurd (omega arith)
backoff-wait (suc zero) initial jitter some small =
    capped (interval initial * 1) (jitter * 1000000) (ground (arith, small))
backoff-wait (suc (suc zero)) initial jitter some small =
    capped (interval initial * 2) (jitter * 1000000) (ground (arith, small))
backoff-wait (suc (suc (suc zero))) initial jitter some small =
    capped (interval initial * 4) (jitter * 1000000) (ground (arith, small))
backoff-wait (suc (suc (suc (suc zero)))) initial jitter some small =
    capped (interval initial * 8) (jitter * 1000000) (ground (arith, small))
backoff-wait (suc (suc (suc (suc (suc zero))))) initial jitter some small =
    capped (interval initial * 16) (jitter * 1000000) (ground (arith, small))
backoff-wait (suc (suc (suc (suc (suc (suc zero)))))) initial jitter some small =
    capped (interval initial * 32) (jitter * 1000000) (ground (arith, small))
backoff-wait (suc (suc (suc (suc (suc (suc (suc n))))))) initial jitter some small =
    let six : (if ltb 6 (suc (suc (suc (suc (suc (suc (suc n)))))))
          then 6
          else suc (suc (suc (suc (suc (suc (suc n)))))))
        ≡ 6 =
      ground arith in
    let least : min (suc (suc (suc (suc (suc (suc (suc n))))))) 6 ≡ 6 = omega arith in
    let some_attempt : (suc (suc (suc (suc (suc (suc (suc n)))))) == 0) ≡ false = ground arith in
    rw six (
      rw least (
        rw some_attempt
          (capped (interval initial * 32) (jitter * 1000000) (ground (arith, small)))))

wait-bounds :
    (attempt initial jitter : ℕ)
    → 0 < attempt
    → jitter < 500
    → (min initial 30000000000 ≤ wait attempt initial jitter)
      × (wait attempt initial jitter < 30500000000)
      × (wait attempt initial jitter ≤ wait (attempt + 1) initial jitter)
wait-bounds zero initial jitter some few = absurd (omega arith)
wait-bounds (suc zero) initial jitter some few = (ground arith, ground arith, ground arith)
wait-bounds (suc (suc zero)) initial jitter some few = (ground arith, ground arith, ground arith)
wait-bounds (suc (suc (suc zero))) initial jitter some few =
    (ground arith, ground arith, ground arith)
wait-bounds (suc (suc (suc (suc zero)))) initial jitter some few =
    (ground arith, ground arith, ground arith)
wait-bounds (suc (suc (suc (suc (suc zero))))) initial jitter some few =
    (ground arith, ground arith, ground arith)
wait-bounds (suc (suc (suc (suc (suc (suc zero)))))) initial jitter some few =
    (ground arith, ground arith, ground arith)
wait-bounds (suc (suc (suc (suc (suc (suc (suc n))))))) initial jitter some few =
    let least : min (suc (suc (suc (suc (suc (suc (suc n))))))) 6 ≡ 6 = omega arith in
    let later : min (suc (suc (suc (suc (suc (suc (suc n)))))) + 1) 6 ≡ 6 = omega arith in
    rw least (rw later (ground arith, ground arith, omega arith))

-- For an attempt of 1 or more and an interval below 2 ^ 58 nanoseconds, which no multiplication
-- overflows: the back-off is the interval doubled with each of the first six attempts, at most 30
-- seconds, and the jitter; it is at least the interval or 30 seconds, below 30.5 seconds for a
-- jitter below 500 ms, and with the same jitter not shorter for the next attempt.
pub calculate_backoff-wait :
    (attempt initial jitter : ℕ)
    → 0 < attempt
    → initial < 2 ^ 58
    → jitter < 500
    → (calculate_backoff attempt initial jitter ≡ pos (wait attempt initial jitter))
      × ((min initial 30000000000 ≤ wait attempt initial jitter)
          × (wait attempt initial jitter < 30500000000)
          × (wait attempt initial jitter ≤ wait (attempt + 1) initial jitter))
calculate_backoff-wait attempt initial jitter some small few =
    (backoff-wait attempt initial jitter some small, wait-bounds attempt initial jitter some few)
