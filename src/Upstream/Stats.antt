-- ===== src/Upstream/Stats.antt =====
-- The statistics of an upstream server, and its circuit breaker (webgui/internal/upstream/pool.go).
-- Latencies are float64, which is a parameter. Times are nanoseconds.
use resolix.Common.{
  ℕ, zero, suc, ◌+◌, ◌*◌, ◌%◌, Bool, List, [], ◌∷◌, ltb, leb, if◌then◌else◌, Text, replace_at,
}
use resolix.Upstream.Spec.{second}

-- What the pool does with float64.
pub record Floats : Type 1 where
  pub Float : Type 0
  pub nought : Float
  pub is_nought : Float → Bool
  -- float64(microseconds) / 1000.0
  pub of_micros : ℕ → Float
  -- 0.25*ms + 0.75*ewma
  pub smooth : Float → Float → Float
  -- selectionWeight times the weight of the specification
  pub weigh : Float → ℕ → ℕ → Float
  pub add : Float → Float → Float
  pub sub : Float → Float → Float
  pub mul : Float → Float → Float
  pub is_positive : Float → Bool

abbrev pub circuit_failure_threshold : ℕ
circuit_failure_threshold = 3

abbrev pub circuit_cooldown : ℕ
circuit_cooldown = 30 * second

abbrev pub latency_sample_limit : ℕ
latency_sample_limit = 256

pub record Stat (Float : Type 0) : Type 0 where
  pub ewma_ms : Float
  pub failures : ℕ
  pub failure_penalty : ℕ
  pub successes : ℕ
  pub consecutive_failures : ℕ
  pub consecutive_successes : ℕ
  pub circuit_until : ℕ
  pub last_failure : Text
  pub latency_samples : List Float
  pub latency_count : ℕ
  pub latency_index : ℕ

module _ (floats : Floats) where
  open floats use {Float, nought, is_nought, of_micros, smooth}

  abbrev pub zeros : ℕ → List Float
  zeros zero = []
  zeros (suc n) = nought ∷ zeros n

  -- &stat{}
  abbrev pub new_stat : Stat Float
  new_stat = record {
    ewma_ms = nought;
    failures = 0;
    failure_penalty = 0;
    successes = 0;
    consecutive_failures = 0;
    consecutive_successes = 0;
    circuit_until = 0;
    last_failure = [];
    latency_samples = zeros latency_sample_limit;
    latency_count = 0;
    latency_index = 0;
  }

  -- recordLatency
  unfoldable pub record_latency : Float → Stat Float → Stat Float
  record_latency ms st = record st {
    ewma_ms = if is_nought st.ewma_ms then ms else smooth ms st.ewma_ms;
    latency_samples = replace_at st.latency_index ms st.latency_samples;
    latency_index = (st.latency_index + 1) % latency_sample_limit;
    latency_count =
        if ltb st.latency_count latency_sample_limit
        then st.latency_count + 1
        else st.latency_count;
  }

  -- The statistics after a failure at this time.
  unfoldable pub count_failure : Text → ℕ → Stat Float → Stat Float
  count_failure error now st = record st {
    failures = st.failures + 1;
    failure_penalty = st.failure_penalty + 1;
    consecutive_failures = st.consecutive_failures + 1;
    consecutive_successes = 0;
    last_failure = error;
    circuit_until =
        if leb circuit_failure_threshold (st.consecutive_failures + 1)
        then now + circuit_cooldown
        else st.circuit_until;
  }

  -- And after an answer with this latency.
  unfoldable pub count_success : Float → Stat Float → Stat Float
  count_success ms st = record_latency ms (record st {
    successes = st.successes + 1;
    failure_penalty = 0;
    consecutive_failures = 0;
    consecutive_successes = st.consecutive_successes + 1;
    circuit_until = 0;
    last_failure = [];
  })
