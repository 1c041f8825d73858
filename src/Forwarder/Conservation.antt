-- ===== src/Forwarder/Conservation.antt =====
-- No event is lost or counted twice between the DNS path, the delivery loop and the persistence
-- (webgui/internal/forwarder/backlog.go and lifecycle.go).
use mathlib.Core.List.{append_assoc}
use resolix.Common.{
  ℕ, ◌+◌, ◌-◌, ◌≤◌, ◌<◌, ◌≡◌, refl, ap, sym, ◌∙◌, min, Bool, false, not, ◌||◌, if_intro, List, [],
  ◌∷◌, ◌++◌, arith, length, length-append, take-append-drop, if◌then◌else◌, leb,
}
use resolix.Forwarder.Queue.{
  BacklogItem, max_forward_batch_size, Forwarder, over_limit, drop_event, append_item, enter_event,
  trim_backlog, count_dropped, total_bytes, finish_in_flight, requeue_batch, trim_items,
}
use resolix.Forwarder.Delivery.{
  Outcome, batch_size, take_batch, count_sent, finish_sent, count_given_up, retry,
}
use resolix.Forwarder.Held.{
  total_bytes-append, release_lem, Between, Between-widen, Between-snoc, Between-tail,
  trim-prefix-Between, trim-bytes, trim-bytes-le, trim-length,
}

module _ {E : Type 0} where
  -- What the agent holds, oldest first: the batch being sent and the queue behind it.
  abbrev pub held : Forwarder E → List (BacklogItem E)
  held f = f.in_flight ++ f.backlog

  -- `settled` counts the events that were sent, dropped or queued.
  pub record IsConserved (f : Forwarder E) (settled : ℕ) : Type 0 where
    pub counted : settled ≡ f.sent + f.dropped + length (held f)
    pub bytes : f.backlog_total_size ≡ total_bytes (held f)
    pub within : 0 < f.config.max_backlog_size → f.backlog_total_size ≤ f.config.max_backlog_size
    pub order : Between 0 f.backlog_seq (held f)

  pub append_item-IsConserved :
      (f : Forwarder E) (ev : E) (size at n : ℕ)
      → IsConserved f n
      → IsConserved (append_item f ev size at) (n + 1)
  unfolding append_item
  append_item-IsConserved f ev size at n v =
      if_intro (λ (g : Forwarder E). IsConserved g (n + 1))
        (over_limit (record f { backlog_seq = f.backlog_seq + 1 }) size)
        (λ over. record {
          counted = omega (arith, v.counted);
          bytes = v.bytes;
          within = v.within;
          order =
              Between-widen 0 0 f.backlog_seq (f.backlog_seq + 1) (held f) (omega arith)
                (omega arith) v.order;
        })
        (λ fits. record {
          counted =
              rw (← append_assoc f.in_flight f.backlog _)
                (omega (arith, v.counted, length-append (held f) (item ∷ [])));
          bytes =
              rw (← append_assoc f.in_flight f.backlog _)
                (omega (arith, v.bytes, total_bytes-append (held f) (item ∷ [])));
          within = λ limited. ground (arith, fits, limited);
          order =
              rw (← append_assoc f.in_flight f.backlog _)
                (Between-snoc 0 f.backlog_seq (held f) item refl v.order);
        })
    where
      item : BacklogItem E
      item = record { event = ev; size = size; queued_at = at; seq = f.backlog_seq + 1 }

  pub drop_event-IsConserved :
      (f : Forwarder E) (n : ℕ) → IsConserved f n → IsConserved (drop_event f) (n + 1)
  unfolding drop_event
  drop_event-IsConserved f n v = record {
    counted = omega (arith, v.counted);
    bytes = v.bytes;
    within = v.within;
    order = v.order;
  }

  -- The events that EnqueueEvent does not ignore.
  abbrev pub offers : Forwarder E → ℕ
  offers f = if not f.config.is_agent || not f.config.has_controller then 0 else 1

  pub enter_event-IsConserved :
      (item_size : E → ℕ) (with_node : E → E) (f : Forwarder E) (ev : E) (now : ℕ) (locked : Bool)
      (n : ℕ)
      → IsConserved f n
      → IsConserved (enter_event item_size with_node f ev now locked) (n + 1)
  unfolding enter_event
  enter_event-IsConserved item_size with_node f ev now locked n v =
      if_intro (λ (g : Forwarder E). IsConserved g (n + 1)) locked
        (λ _. drop_event-IsConserved f n v)
        (λ _. append_item-IsConserved f (with_node ev) (item_size (with_node ev)) now n v)

  take_held : (f : Forwarder E) → f.in_flight ≡ [] → held (take_batch f) ≡ held f
  unfolding take_batch
  take_held f idle = take-append-drop (batch_size f) f.backlog ∙ sym (ap (λ l. l ++ f.backlog) idle)

  pub take_batch-IsConserved :
      (f : Forwarder E) (n : ℕ) → f.in_flight ≡ [] → IsConserved f n → IsConserved (take_batch f) n
  unfolding take_batch
  take_batch-IsConserved f n idle v =
      let same : held (take_batch f) ≡ held f = take_held f idle in
      record {
        counted = rw same v.counted;
        bytes = rw same v.bytes;
        within = v.within;
        order = rw same v.order;
      }

  -- A batch that is delivered or given up leaves, once it has been counted.
  finish-IsConserved :
      (f : Forwarder E) (n : ℕ)
      → n ≡ f.sent + f.dropped + length f.backlog
      → f.backlog_total_size ≡ total_bytes (held f)
      → (0 < f.config.max_backlog_size → f.backlog_total_size ≤ f.config.max_backlog_size)
      → Between 0 f.backlog_seq (held f)
      → IsConserved (finish_in_flight f false) n
  unfolding finish_in_flight
  finish-IsConserved f n counted bytes within order = record {
    counted = counted;
    bytes = omega (
      arith,
      bytes,
      release_lem f.backlog_total_size f.in_flight,
      total_bytes-append f.in_flight f.backlog,
    );
    within = λ limited. omega (arith, within limited, release_lem f.backlog_total_size f.in_flight);
    order = Between-tail 0 f.backlog_seq f.in_flight f.backlog order;
  }

  -- What is left when the batch in flight has been counted before it goes.
  pub finish_counted-IsConserved :
      (f : Forwarder E) (n : ℕ)
      → IsConserved f n
      → IsConserved (finish_in_flight f false) (f.sent + f.dropped + length f.backlog)
  finish_counted-IsConserved f n v =
      finish-IsConserved f (f.sent + f.dropped + length f.backlog) refl v.bytes v.within v.order

  pub count_sent-IsConserved :
      (f : Forwarder E) (n : ℕ)
      → IsConserved f n
      → IsConserved (count_sent f) (n + length f.in_flight)
  unfolding count_sent
  count_sent-IsConserved f n v = record {
    counted = omega (arith, v.counted);
    bytes = v.bytes;
    within = v.within;
    order = v.order;
  }

  pub count_given_up-IsConserved :
      (f : Forwarder E) (n : ℕ)
      → IsConserved f n
      → IsConserved (count_given_up f) (n + length f.in_flight)
  unfolding count_given_up
  count_given_up-IsConserved f n v = record {
    counted = omega (arith, v.counted);
    bytes = v.bytes;
    within = v.within;
    order = v.order;
  }

  pub retry-IsConserved :
      (f : Forwarder E) (o : Outcome) (size n : ℕ)
      → IsConserved f n
      → IsConserved (retry f o size) n
  unfolding retry requeue_batch
  retry-IsConserved f o size n v = record {
    counted = v.counted;
    bytes = v.bytes;
    within = v.within;
    order = v.order;
  }

  -- The flag of admission and the adaptive size are no part of the account.
  pub freeze-IsConserved :
      (f : Forwarder E) (b : Bool) (n : ℕ)
      → IsConserved f n
      → IsConserved (record f { drop_new_events = b }) n
  freeze-IsConserved f b n v = record {
    counted = v.counted;
    bytes = v.bytes;
    within = v.within;
    order = v.order;
  }

  adapt-IsConserved :
      (f : Forwarder E) (b n : ℕ)
      → IsConserved f n
      → IsConserved (record f { adaptive_batch = b }) n
  adapt-IsConserved f b n v = record {
    counted = v.counted;
    bytes = v.bytes;
    within = v.within;
    order = v.order;
  }

  pub finish_sent-IsConserved :
      (f : Forwarder E) (size n : ℕ)
      → IsConserved f n
      → IsConserved (finish_sent f size) (f.sent + f.dropped + length f.backlog)
  unfolding finish_sent
  finish_sent-IsConserved f size n v =
      let done = finish_counted-IsConserved f n v in
      if_intro (λ (g : Forwarder E). IsConserved g (f.sent + f.dropped + length f.backlog))
        (leb size (length f.in_flight))
        (λ _. adapt-IsConserved _ (min max_forward_batch_size (size + 25)) _ done) (λ _. done)

  pub count_dropped-IsConserved :
      (f : Forwarder E) (k n : ℕ) → IsConserved f n → IsConserved (count_dropped f k) (n + k)
  unfolding count_dropped
  count_dropped-IsConserved f k n v = record {
    counted = omega (arith, v.counted);
    bytes = v.bytes;
    within = v.within;
    order = v.order;
  }

  pub trim-IsConserved :
      (f : Forwarder E) (seqs : List ℕ) (n : ℕ)
      → IsConserved f n
      → IsConserved (trim_backlog f seqs).0 (n - (trim_backlog f seqs).1)
  unfolding trim_backlog
  trim-IsConserved f seqs n v =
      let kept = (trim_items seqs f.backlog_total_size f.backlog).0 in
      let b =
        trim-bytes seqs (total_bytes f.in_flight) f.backlog_total_size f.backlog
          (v.bytes ∙ total_bytes-append f.in_flight f.backlog) in
      let l = trim-length seqs f.backlog_total_size f.backlog in
      record {
        counted = omega (
          arith,
          v.counted,
          l,
          length-append f.in_flight f.backlog,
          length-append f.in_flight kept,
        );
        bytes = b ∙ sym (total_bytes-append f.in_flight kept);
        within = λ limited.
            omega (arith, v.within limited, trim-bytes-le seqs f.backlog_total_size f.backlog);
        order =
            trim-prefix-Between seqs 0 f.backlog_seq f.backlog_total_size f.in_flight f.backlog
              v.order;
      }

  pub trim_backlog-length :
      (f : Forwarder E) (seqs : List ℕ) → (trim_backlog f seqs).1 ≤ length f.backlog
  unfolding trim_backlog
  trim_backlog-length f seqs = omega (arith, trim-length seqs f.backlog_total_size f.backlog)
