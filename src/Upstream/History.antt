-- ===== src/Upstream/History.antt =====
-- The statistics of an upstream against the history of its exchanges
-- (webgui/internal/upstream/pool.go, exchangeContext and recordLatency). The exchanges here come one
-- after another: exchangeContext updates its counters one by one without a lock, and what exchanges
-- of one upstream that overlap can do between those updates is not described.
use resolix.Common.{
  ℕ, zero, suc, ◌+◌, ◌-◌, ◌/◌, ◌%◌, min, ◌≡◌, Option, some, List, [], ◌∷◌, length, get_elem?, ◌==◌,
  nat_comparable, list_comparable, if◌then◌else◌, Text, bytes,
}
use resolix.Upstream.Message.{Msg, Ecs, with_ecs}
use resolix.Upstream.Stats.{Stat}
use resolix.Upstream.Pool.{Resolver, Pool, name_of}
use resolix.Upstream.Exchange.{Reply, replied, refused, nothing, World, exchange_context}

-- What an exchange with an upstream came to: an error at a time, or an answer after a latency.
pub data Event (Float : Type 0) : Type 0 where
  fails : Text → ℕ → Event Float
  answers : Float → Event Float

-- The descriptions of a history, the latest event first.
module _ {Float : Type 0} where
  abbrev pub failed : List (Event Float) → ℕ
  failed [] = 0
  failed (fails e t ∷ h) = failed h + 1
  failed (answers ms ∷ h) = failed h

  -- The errors since the last answer.
  abbrev pub failed_since : List (Event Float) → ℕ
  failed_since [] = 0
  failed_since (fails e t ∷ h) = failed_since h + 1
  failed_since (answers ms ∷ h) = 0

  -- The answers since the last error.
  abbrev pub answered_since : List (Event Float) → ℕ
  answered_since [] = 0
  answered_since (fails e t ∷ h) = 0
  answered_since (answers ms ∷ h) = answered_since h + 1

  abbrev pub latencies : List (Event Float) → List Float
  latencies [] = []
  latencies (fails e t ∷ h) = latencies h
  latencies (answers ms ∷ h) = ms ∷ latencies h

  -- Until when the upstream is passed over: 30 s after the latest event, if the last three and
  -- perhaps more are errors.
  abbrev pub closed_until : List (Event Float) → ℕ
  closed_until (fails e t ∷ fails e' t' ∷ fails e'' t'' ∷ h) = t + 30000000000
  closed_until h = 0

  abbrev pub last_error : List (Event Float) → Text
  last_error (fails e t ∷ h) = e
  last_error h = []

  -- Each of the last answers stands where its number points, the first answer having number 0.
  abbrev pub HoldsLast : ℕ → List Float → List Float → Type 0
  HoldsLast zero ring xs = Unit
  HoldsLast (suc room) ring [] = Unit
  HoldsLast (suc room) ring (x ∷ xs) =
      (get_elem? ring (length xs % 256) ≡ some x) × HoldsLast room ring xs

  -- The statistics are those of a history.
  pub record IsHistory (h : List (Event Float)) (st : Stat Float) : Type 0 where
    pub failures : st.failures ≡ failed h
    pub successes : st.successes ≡ length (latencies h)
    pub failing : (st.consecutive_failures ≡ failed_since h) × (st.failure_penalty ≡ failed_since h)
    pub answering : st.consecutive_successes ≡ answered_since h
    pub circuit : st.circuit_until ≡ closed_until h
    pub error : st.last_failure ≡ last_error h
    pub room : length st.latency_samples ≡ 256
    pub count : st.latency_count ≡ min (length (latencies h)) 256
    pub index : st.latency_index ≡ length (latencies h) % 256
    pub ring : HoldsLast 256 st.latency_samples (latencies h)

-- An exchange with an upstream: the message, and the time at which it starts.
abbrev pub Attempt : Type 0
Attempt = Resolver × (Msg × ℕ)

module _ (world : World) where
  open world use {floats, ask, do_bit}
  open floats use {Float, of_micros}

  -- Exchanges one after another.
  abbrev pub attempts : List Attempt → Pool Float → Pool Float
  attempts [] p = p
  attempts ((r, (m, now)) ∷ rest) p = attempts rest (exchange_context world p r m now).0.0

  -- What an exchange comes to that starts at this time.
  abbrev pub event_of : ℕ → Reply × ℕ → Event Float
  event_of start (replied resp, end) = answers (of_micros ((end - start) / 1000))
  event_of start (refused e, end) = fails e end
  event_of start (nothing, end) = fails (bytes "upstream returned an empty response") end

  -- The events of one upstream after these, given what is sent on for ECS.
  abbrev pub history : Option Ecs → Text → List Attempt → List (Event Float) → List (Event Float)
  history ecs raw [] h = h
  history ecs raw ((r, (m, now)) ∷ rest) h =
      history ecs raw rest
        (if name_of r == raw then event_of now (ask r (with_ecs ecs do_bit m) now) ∷ h else h)
