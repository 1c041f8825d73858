-- ===== src/Forwarder/Steps.antt =====
-- The queue under the interleavings of its callers (webgui/internal/forwarder): EnqueueEvent on the
-- DNS path, the delivery loop of Start, the health reports, and dropPersistTrimmed on the
-- persistence loop. What stands under the queue's mutex is one step, and so is each read or write of
-- an atomic outside it: the flag dropNewEvents, and the counters of sent and dropped events.
use resolix.Common.{
  ℕ, ◌+◌, ◌≤◌, ◌<◌, ◌≡◌, Bool, true, false, ◌&&◌, List, [], ◌∷◌, length, Option, none, some,
  get_elem?, if◌then◌else◌, nat_comparable, remove_at,
}
use resolix.Forwarder.Queue.{
  Config, Forwarder, new_forwarder, drop_event, enter_event, load_items, finish_in_flight,
  trim_backlog, count_dropped, max_forward_batch_size,
}
use resolix.Forwarder.Delivery.{
  Outcome, accepted, batch_size, take_batch, answer, is_failure, count_sent, finish_sent,
  count_given_up, gives_up, retry,
}

-- Where the delivery loop stands; a round remembers the batch size it computed, and what sendBatch
-- returned until the batch is counted.
pub data Loop : Type 0 where
  waiting : Loop
  sending : ℕ → Loop
  answered : Outcome → ℕ → Loop
  counted_sent : ℕ → Loop
  counted_given_up : ℕ → Loop

-- The batch is counted and not yet gone.
abbrev pub is_counted : Loop → Bool
is_counted waiting = false
is_counted (sending size) = false
is_counted (answered o size) = false
is_counted (counted_sent size) = true
is_counted (counted_given_up size) = true

-- `pending` has the calls of EnqueueEvent that have read the flag and not gone on, with their event
-- if it was not set; `trimmed` are the events that dropPersistTrimmed took and did not count yet.
pub record System (E : Type 0) : Type 0 where
  pub forwarder : Forwarder E
  pub loop : Loop
  pub pending : List (Option E)
  pub trimmed : ℕ

module _ {E : Type 0} where
  -- The events that EnqueueEvent does not ignore.
  abbrev pub is_agent : Forwarder E → Bool
  is_agent f = f.config.is_agent && f.config.has_controller

  -- The loop sends what it took out, and has nothing out between two rounds.
  abbrev pub Matches : Loop → Forwarder E → Type 0
  Matches waiting f = f.in_flight ≡ []
  Matches (sending size) f =
      (length f.in_flight ≡ size) × (0 < size) × (size ≤ max_forward_batch_size)
  Matches (answered o size) f =
      (length f.in_flight ≡ size) × (0 < size) × (size ≤ max_forward_batch_size)
  Matches (counted_sent size) f =
      (length f.in_flight ≡ size) × (0 < size) × (size ≤ max_forward_batch_size)
  Matches (counted_given_up size) f =
      (length f.in_flight ≡ size) × (0 < size) × (size ≤ max_forward_batch_size)

  module _ (item_size : E → ℕ) (with_node : E → E) where
    -- One step; the number counts the events it was handed.
    pub data Step (s : System E) : System E → ℕ → Type 0 where
      offers :
          (ev : E)
          → is_agent s.forwarder ≡ true
          → Step s
              (record s {
                pending = (if s.forwarder.drop_new_events then none else some ev) ∷ s.pending;
              })
              1
      ignores : (ev : E) → is_agent s.forwarder ≡ false → Step s s 0
      drops :
          (i : ℕ)
          → get_elem? s.pending i ≡ some none
          → Step s
              (record s { forwarder = drop_event s.forwarder; pending = remove_at i s.pending })
              0
      enters :
          (i : ℕ) (ev : E) (now : ℕ) (locked : Bool)
          → get_elem? s.pending i ≡ some (some ev)
          → Step s
              (record s {
                forwarder = enter_event item_size with_node s.forwarder ev now locked;
                pending = remove_at i s.pending;
              })
              0
      starts :
          s.loop ≡ waiting
          → 0 < length s.forwarder.backlog
          → Step s
              (record s {
                forwarder = take_batch s.forwarder;
                loop = sending (batch_size s.forwarder);
              })
              0
      answers :
          (o : Outcome) {size : ℕ}
          → s.loop ≡ sending size
          → Step s (record s { forwarder = answer s.forwarder o; loop = answered o size }) 0
      counts_sent :
          {size : ℕ}
          → s.loop ≡ answered accepted size
          → Step s (record s { forwarder = count_sent s.forwarder; loop = counted_sent size }) 0
      finishes_sent :
          {size : ℕ}
          → s.loop ≡ counted_sent size
          → Step s (record s { forwarder = finish_sent s.forwarder size; loop = waiting }) 0
      counts_given_up :
          {o : Outcome} {size : ℕ}
          → s.loop ≡ answered o size
          → is_failure o ≡ true
          → gives_up s.forwarder o ≡ true
          → Step s
              (record s { forwarder = count_given_up s.forwarder; loop = counted_given_up size })
              0
      finishes_given_up :
          {size : ℕ}
          → s.loop ≡ counted_given_up size
          → Step s (record s { forwarder = finish_in_flight s.forwarder false; loop = waiting }) 0
      retries :
          {o : Outcome} {size : ℕ}
          → s.loop ≡ answered o size
          → is_failure o ≡ true
          → gives_up s.forwarder o ≡ false
          → Step s (record s { forwarder = retry s.forwarder o size; loop = waiting }) 0
      reports : (o : Outcome) → Step s (record s { forwarder = answer s.forwarder o }) 0
      trims :
          (seqs : List ℕ)
          → s.trimmed ≡ 0
          → Step s
              (record s {
                forwarder = (trim_backlog s.forwarder seqs).0;
                trimmed = (trim_backlog s.forwarder seqs).1;
              })
              0
      counts_trimmed :
          Step s (record s { forwarder = count_dropped s.forwarder s.trimmed; trimmed = 0 }) 0

    abbrev pub started : Config → List (E × ℕ) → ℕ → System E
    started config saved now = record {
      forwarder = load_items item_size (new_forwarder config) saved now;
      loop = waiting;
      pending = [];
      trimmed = 0;
    }

    -- The states that a forwarder with a persisted backlog comes to.
    pub data Runs (config : Config) : System E → ℕ → Type 0 where
      loads :
          (saved : List (E × ℕ)) (now : ℕ) → Runs config (started config saved now) (length saved)
      steps : {s t : System E} {n d : ℕ} → Runs config s n → Step s t d → Runs config t (n + d)
