-- ===== src/Forwarder/Delivery.antt =====
-- The delivery loop of the agent (webgui/internal/forwarder/lifecycle.go, Start): a batch is taken
-- under the mutex, sent, and settled by what the controller answered. Timers, the shutdown and the
-- wake-up channels are left out: they decide when a round is made, not what it does.
use resolix.Common.{
  ℕ, ◌+◌, ◌-◌, ◌/◌, ◌*◌, ◌%◌, ◌^◌, ℤ, pos, negsuc, Bool, true, false, not, ◌&&◌, ◌||◌, ltb, leb,
  ◌==◌, nat_comparable, if◌then◌else◌, length, take, drop, min, max,
}
use resolix.Forwarder.Queue.{
  Forwarder, min_forward_batch_size, max_forward_batch_size, finish_in_flight, requeue_batch,
}

pub record StatusError : Type 0 where
  pub status : ℕ
  pub retry_after : ℕ

-- responseStatusError.permanent
unfoldable pub permanent : StatusError → Bool
permanent e =
    leb 400 e.status
    && ltb e.status 500
    && not (e.status == 408)
    && not (e.status == 429)
    && not (e.status == 413)

-- What sendBatch returned: no error, an error without a status, or one with a status.
pub data Outcome : Type 0 where
  accepted : Outcome
  unreachable : Outcome
  refused : StatusError → Outcome

abbrev pub is_permanent : Outcome → Bool
is_permanent (refused e) = permanent e
is_permanent _ = false

-- A batch that was too large, or came too soon.
abbrev pub is_too_much : Outcome → Bool
is_too_much (refused e) = e.status == 413 || e.status == 429
is_too_much _ = false

-- What the deferred function of sendBatch leaves: a failure freezes the admission of events.
abbrev pub is_failure : Outcome → Bool
is_failure accepted = false
is_failure unreachable = true
is_failure (refused e) = true

module _ {E : Type 0} where
  -- The size of the next batch: the adaptive size within its bounds, and no more than there is.
  unfoldable pub batch_size : Forwarder E → ℕ
  batch_size f =
      let n : ℕ = min (max f.adaptive_batch min_forward_batch_size) max_forward_batch_size in
      if ltb (length f.backlog) n then length f.backlog else n

  unfoldable pub take_batch : Forwarder E → Forwarder E
  take_batch f = record f {
    in_flight = take (batch_size f) f.backlog;
    backlog = drop (batch_size f) f.backlog;
  }

  unfoldable pub answer : Forwarder E → Outcome → Forwarder E
  answer f o = record f { drop_new_events = is_failure o }

  -- The branch of a success: the count, outside the mutex, and what follows. `size` is the batch
  -- size that the round computed.
  unfoldable pub count_sent : Forwarder E → Forwarder E
  count_sent f = record f { backoff_attempt = 0; sent = f.sent + length f.in_flight }

  unfoldable pub finish_sent : Forwarder E → ℕ → Forwarder E
  finish_sent f size =
      let f' = finish_in_flight f false in
      if leb size (length f.in_flight)
      then record f' { adaptive_batch = min max_forward_batch_size (size + 25) }
      else f'

  unfoldable pub settle_accepted : Forwarder E → ℕ → Forwarder E
  settle_accepted f size = finish_sent (count_sent f) size

  -- The batch is given up, after a permanent refusal or too many attempts: again the count stands
  -- before finishInFlight.
  unfoldable pub count_given_up : Forwarder E → Forwarder E
  count_given_up f = record f { dropped = f.dropped + length f.in_flight; backoff_attempt = 0 }

  unfoldable pub give_up : Forwarder E → Forwarder E
  give_up f = finish_in_flight (count_given_up f) false

  -- The batch goes back to the front, and a smaller one is tried where size or rate was at fault.
  unfoldable pub retry : Forwarder E → Outcome → ℕ → Forwarder E
  retry f o size =
      let f' = requeue_batch f f.in_flight in
      record f' {
        adaptive_batch =
            if is_too_much o then max min_forward_batch_size (size / 2) else f.adaptive_batch;
        backoff_attempt = f.backoff_attempt + 1;
        retries = f.retries + 1;
      }

  -- Whether a failed batch is given up.
  abbrev pub gives_up : Forwarder E → Outcome → Bool
  gives_up f o =
      is_permanent o
      || ltb 0 f.config.max_retry_attempts && leb f.config.max_retry_attempts f.backoff_attempt

  unfoldable pub settle_failed : Forwarder E → Outcome → ℕ → Forwarder E
  settle_failed f o size = if gives_up f o then give_up f else retry f o size

  abbrev pub settle_answered : Forwarder E → Outcome → ℕ → Forwarder E
  settle_answered f accepted size = settle_accepted f size
  settle_answered f unreachable size = settle_failed f unreachable size
  settle_answered f (refused e) size = settle_failed f (refused e) size

  -- What a round does with the result of sendBatch.
  unfoldable pub settle : Forwarder E → Outcome → ℕ → Forwarder E
  settle f o size = settle_answered (answer f o) o size

-- The value of an int64 with these bits.
abbrev pub to_int64 : ℕ → ℤ
to_int64 n = let m = n % 2 ^ 64 in if ltb m (2 ^ 63) then pos m else negsuc (2 ^ 64 - 1 - m)

-- The cap of 30 seconds, and the jitter.
abbrev pub cap_and_jitter : ℤ → ℕ → ℤ
cap_and_jitter (pos b) jitter = pos ((if ltb 30000000000 b then 30000000000 else b) + jitter)
cap_and_jitter (negsuc b) jitter =
    if leb jitter b then negsuc (b - jitter) else pos (jitter - b - 1)

-- calculateBackoff in nanoseconds; an attempt or an interval of 0 stands for any that is not
-- positive. `jitter` is the random number of milliseconds, 0 if none could be drawn.
unfoldable pub calculate_backoff : ℕ → ℕ → ℕ → ℤ
calculate_backoff attempt initial jitter =
    let start : ℕ = if initial == 0 then 1000000000 else initial in
    let n : ℕ = if ltb 6 attempt then 6 else attempt in
    if attempt == 0
    then pos start
    else cap_and_jitter (to_int64 (start * 2 ^ (n - 1))) (jitter * 1000000)
