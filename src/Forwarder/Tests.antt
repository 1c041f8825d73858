-- ===== src/Forwarder/Tests.antt =====
-- Runs of the forwarder at concrete inputs, and the theorems at inputs where their hypotheses hold.
use resolix.Common.{
  ℕ, ◌-◌, ◌^◌, min, pos, negsuc, ◌≤◌, ◌<◌, ◌≡◌, refl, true, false, Option, some, [], ◌∷◌, arith,
  Text, bytes,
}
use mathlib.Core.List.{map}
use resolix.Forwarder.Queue.{
  BacklogItem, Config, Forwarder, new_forwarder, load_items, append_item, enter_event,
  enqueue_event, drop_event, release, finish_in_flight, requeue_batch,
}
use resolix.Forwarder.Delivery.{
  accepted, unreachable, batch_size, take_batch, settle, settle_accepted, settle_failed, give_up,
  retry, answer, count_sent, finish_sent, count_given_up, permanent, calculate_backoff,
}
use resolix.Forwarder.Steps.{waiting, Loop, System, started, Step, Runs}
use resolix.Forwarder.Runs.{IsKept, Runs-IsKept}
use resolix.Forwarder.Rounds.{
  round, rounds, round-shrinks, IsDrained, rounds-IsDrained, IsGivenUp, rounds-IsGivenUp, wait,
  calculate_backoff-wait,
}
use resolix.Forwarder.Persist.{
  encode_all, encode_bounded, encode_raws, trim_oldest, encoded, Promises, encode_bounded-Promises,
}

-- Events are numbers, each accounted for by ten bytes, in a queue of at most 40 bytes.
abbrev limits : Config
limits = record {
  is_agent = true;
  has_controller = true;
  max_backlog_size = 40;
  max_retry_attempts = 2;
}

abbrev ten : ℕ → ℕ
ten e = 10

abbrev same : ℕ → ℕ
same e = e

abbrev restored : Forwarder ℕ
restored = load_items ten (new_forwarder limits) ((7, 0) ∷ (8, 5) ∷ []) 100

abbrev queued : Forwarder ℕ
queued = enqueue_event ten same restored 9 200 false

abbrev sent_off : Forwarder ℕ
sent_off = take_batch queued

abbrev delivered : Forwarder ℕ
delivered = settle sent_off accepted (batch_size queued)

program : Unit {0}
unfolding load_items append_item drop_event enter_event enqueue_event answer count_sent finish_sent
    count_given_up take_batch batch_size settle settle_accepted settle_failed give_up retry
    finish_in_flight requeue_batch release permanent round calculate_backoff encode_bounded
    encode_raws trim_oldest
program = tt

queued_order : map (λ x. x.event) queued.backlog ≡ 7 ∷ 8 ∷ 9 ∷ []
unfolding program
queued_order = refl

delivered_sent :
    (delivered.sent ≡ 3) × (delivered.backlog_total_size ≡ 0) × (delivered.adaptive_batch ≡ 28)
unfolding program
delivered_sent = (refl, refl, refl)

abbrev between : Loop → Forwarder ℕ → System ℕ
between l f = record { forwarder = f; loop = l; pending = []; trimmed = 0 }

abbrev a_start : System ℕ
a_start = started ten same limits ((7, 0) ∷ (8, 5) ∷ []) 100

delivered_run : Runs ten same limits (between waiting delivered) 3
unfolding program
delivered_run =
    Runs.steps
      (Runs.steps
        (Runs.steps
          (Runs.steps
            (Runs.steps (Runs.steps (Runs.loads ((7, 0) ∷ (8, 5) ∷ []) 100) (Step.offers 9 refl))
              (Step.enters 0 9 200 false refl))
            (Step.starts refl (omega arith)))
          (Step.answers accepted refl))
        (Step.counts_sent refl))
      (Step.finishes_sent refl)

Runs-IsKept_example : IsKept (between waiting delivered) 3
Runs-IsKept_example = Runs-IsKept ten same limits (between waiting delivered) 3 delivered_run

rounds-IsDrained_example : IsDrained queued (rounds 3 accepted queued)
unfolding program
rounds-IsDrained_example = rounds-IsDrained 3 queued (omega arith)

rounds-IsGivenUp_example : IsGivenUp queued (rounds 3 unreachable queued) 2
unfolding program
rounds-IsGivenUp_example = rounds-IsGivenUp 2 queued (omega arith) (omega arith) refl

round-shrinks_example : (round accepted queued).adaptive_batch < queued.adaptive_batch
unfolding program
round-shrinks_example = round-shrinks queued (omega arith) (omega arith) (omega arith)

-- An interval of nine years is taken for a negative time.
backoff_wraps : calculate_backoff 6 (2 ^ 58) 0 ≡ negsuc (2 ^ 63 - 1)
unfolding program
backoff_wraps = refl

calculate_backoff-wait_example :
    (calculate_backoff 3 2000000000 17 ≡ pos 8017000000)
    × ((min 2000000000 30000000000 ≤ wait 3 2000000000 17)
        × (wait 3 2000000000 17 < 30500000000)
        × (wait 3 2000000000 17 ≤ wait 4 2000000000 17))
calculate_backoff-wait_example =
    calculate_backoff-wait 3 2000000000 17 (omega arith) (omega arith) (omega arith)

-- An item is encoded as two bytes.
abbrev encode : BacklogItem ℕ → Option Text
encode x = some (bytes "{}")

-- Only the newest two of the queue fit into 31 bytes.
encode_bounded_some :
    encode_bounded encode queued.backlog 0 29
    ≡ encoded (bytes "{\"version\":1,\"items\":[{},{}]}") (1 ∷ [])
unfolding program
encode_bounded_some = refl

encode_bounded-Promises_example :
    Promises encode queued.backlog 1 20
      (encode_all encode queued.backlog)
      (encode_bounded encode queued.backlog 1 20)
encode_bounded-Promises_example = encode_bounded-Promises encode queued.backlog 1 20
