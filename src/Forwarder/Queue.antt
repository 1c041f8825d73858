-- ===== src/Forwarder/Queue.antt =====
-- The agent's queue of query events (webgui/internal/forwarder/backlog.go and lifecycle.go). An
-- event is of any type; the size that is accounted for it and the default of its node name come
-- from the JSON encoder and the configuration, and are parameters. Byte counts and sequence numbers
-- are below the bounds of their machine types.
use resolix.Common.{
  ℕ, ◌+◌, ◌-◌, Bool, false, not, ◌&&◌, ◌||◌, List, [], ◌∷◌, ◌++◌, ltb, ◌==◌, nat_comparable,
  if◌then◌else◌,
}

pub record BacklogItem (E : Type 0) : Type 0 where
  pub event : E
  pub size : ℕ
  pub queued_at : ℕ
  pub seq : ℕ

-- No limit is written as 0, for the limits that the configuration leaves unset.
pub record Config : Type 0 where
  pub is_agent : Bool
  pub has_controller : Bool
  pub max_backlog_size : ℕ
  pub max_retry_attempts : ℕ

-- `backoff_attempt` is the variable of the loop of Start.
pub record Forwarder (E : Type 0) : Type 0 where
  pub config : Config
  pub backlog : List (BacklogItem E)
  pub in_flight : List (BacklogItem E)
  pub backlog_total_size : ℕ
  pub backlog_seq : ℕ
  pub retries : ℕ
  pub dropped : ℕ
  pub sent : ℕ
  pub drop_new_events : Bool
  pub adaptive_batch : ℕ
  pub backoff_attempt : ℕ

abbrev pub initial_forward_batch_size : ℕ
initial_forward_batch_size = 100

abbrev pub min_forward_batch_size : ℕ
min_forward_batch_size = 10

abbrev pub max_forward_batch_size : ℕ
max_forward_batch_size = 100

-- NewForwarder, before a persisted backlog is loaded.
abbrev pub new_forwarder : {E : Type 0} → Config → Forwarder E
new_forwarder config = record {
  config = config;
  backlog = [];
  in_flight = [];
  backlog_total_size = 0;
  backlog_seq = 0;
  retries = 0;
  dropped = 0;
  sent = 0;
  drop_new_events = false;
  adaptive_batch = initial_forward_batch_size;
  backoff_attempt = 0;
}

abbrev pub has_seq : ℕ → List ℕ → Bool
has_seq n [] = false
has_seq n (m ∷ ms) = n == m || has_seq n ms

module _ {E : Type 0} where
  -- The test that admits no item past the limit.
  abbrev pub over_limit : Forwarder E → ℕ → Bool
  over_limit f size =
      ltb 0 f.config.max_backlog_size && ltb f.config.max_backlog_size (f.backlog_total_size + size)

  unfoldable pub drop_event : Forwarder E → Forwarder E
  drop_event f = record f { dropped = f.dropped + 1 }

  -- The part of EnqueueEvent, and of the loop of loadBacklog, that appends an item.
  unfoldable pub append_item : Forwarder E → E → ℕ → ℕ → Forwarder E
  unfolding drop_event
  append_item f ev size queued_at =
      let f' = record f { backlog_seq = f.backlog_seq + 1 } in
      if over_limit f' size then drop_event f' else record f' {
        backlog =
            f.backlog
            ++ record { event = ev; size = size; queued_at = queued_at; seq = f.backlog_seq + 1 }
              ∷ [];
        backlog_total_size = f.backlog_total_size + size;
      }

  module _ (item_size : E → ℕ) (with_node : E → E) where
    -- The part of EnqueueEvent behind the test of dropNewEvents; `locked` says whether another goroutine holds the queue's mutex.
    unfoldable pub enter_event : Forwarder E → E → ℕ → Bool → Forwarder E
    enter_event f ev now locked =
        if locked then drop_event f else append_item f (with_node ev) (item_size (with_node ev)) now

    -- EnqueueEvent, when nothing comes between the test and the rest.
    unfoldable pub enqueue_event : Forwarder E → E → ℕ → Bool → Forwarder E
    unfolding append_item
    enqueue_event f ev now locked =
        if not f.config.is_agent || not f.config.has_controller
        then f
        else if f.drop_new_events
        then drop_event f
        else enter_event f ev now locked

  module _ (item_size : E → ℕ) where
    -- The loop of loadBacklog over the decoded items. The zero time is 0, and a time more than a
    -- minute ahead is replaced as well.
    unfoldable pub load_items : Forwarder E → List (E × ℕ) → ℕ → Forwarder E
    load_items f [] now = f
    load_items f ((ev, queued_at) ∷ saved) now =
        load_items
          (append_item f ev (item_size ev)
            (if queued_at == 0 || ltb (now + 60000000000) queued_at then now else queued_at))
          saved now

  abbrev pub total_bytes : List (BacklogItem E) → ℕ
  total_bytes [] = 0
  total_bytes (x ∷ xs) = x.size + total_bytes xs

  -- The loop of finishInFlight: each delivered item gives its bytes back.
  unfoldable pub release : ℕ → List (BacklogItem E) → ℕ
  release total [] = total
  release total (x ∷ xs) = release (total - x.size) xs

  unfoldable pub finish_in_flight : Forwarder E → Bool → Forwarder E
  finish_in_flight f requeue =
      let f' = record f { in_flight = [] } in
      if requeue
      then record f' { backlog = f.in_flight ++ f.backlog }
      else record f' { backlog_total_size = release f.backlog_total_size f.in_flight }

  unfoldable pub requeue_batch : Forwarder E → List (BacklogItem E) → Forwarder E
  requeue_batch f items = record f { in_flight = []; backlog = items ++ f.backlog }

  -- The loop of dropPersistTrimmed: what is kept, the bytes left, and the number dropped.
  unfoldable pub trim_items : List ℕ → ℕ → List (BacklogItem E) → List (BacklogItem E) × ℕ × ℕ
  trim_items seqs total [] = ([], total, 0)
  trim_items seqs total (x ∷ xs) =
      let gone = has_seq x.seq seqs in
      let (kept, left, n) = trim_items seqs (if gone then total - x.size else total) xs in
      if gone then (kept, left, n + 1) else (x ∷ kept, left, n)

  -- The part of dropPersistTrimmed under the mutex, and the count behind it.
  unfoldable pub trim_backlog : Forwarder E → List ℕ → Forwarder E × ℕ
  trim_backlog f seqs =
      let (kept, left, n) = trim_items seqs f.backlog_total_size f.backlog in
      (record f { backlog = kept; backlog_total_size = left }, n)

  unfoldable pub count_dropped : Forwarder E → ℕ → Forwarder E
  count_dropped f n = record f { dropped = f.dropped + n }

  unfoldable pub drop_persist_trimmed : Forwarder E → List ℕ → Forwarder E
  drop_persist_trimmed f seqs = let (g, n) = trim_backlog f seqs in count_dropped g n
