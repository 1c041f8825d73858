-- ===== src/Forwarder/Runs.antt =====
-- What every run of the forwarder keeps (webgui/internal/forwarder), by induction on its steps.
use mathlib.Core.Path.{subst}
use native.Mathlib.Nat.{add-zero}
use resolix.Common.{
  ℕ, zero, suc, ◌+◌, ◌-◌, ◌<◌, ◌≡◌, refl, ◌∙◌, Bool, false, ◌||◌, if_intro, List, [], ◌∷◌, arith,
  length, none, some, length-take, length-append, get_elem?, if◌then◌else◌, ltb, leb, ◌==◌,
  nat_comparable, remove_at,
}
use resolix.Forwarder.Queue.{
  Config, Forwarder, new_forwarder, over_limit, drop_event, append_item, enter_event, load_items,
  finish_in_flight, requeue_batch, trim_backlog, count_dropped,
}
use resolix.Forwarder.Delivery.{
  batch_size, take_batch, answer, is_failure, count_sent, finish_sent, count_given_up, retry,
}
use resolix.Forwarder.Conservation.{
  IsConserved, append_item-IsConserved, drop_event-IsConserved, enter_event-IsConserved,
  take_batch-IsConserved, freeze-IsConserved, count_sent-IsConserved, count_given_up-IsConserved,
  finish_sent-IsConserved, finish_counted-IsConserved, retry-IsConserved, trim-IsConserved,
  trim_backlog-length, count_dropped-IsConserved,
}
use resolix.Forwarder.Steps.{
  Loop, waiting, sending, answered, counted_sent, counted_given_up, is_counted, System, Matches,
  Step, offers, ignores, drops, enters, starts, answers, counts_sent, finishes_sent,
  counts_given_up, finishes_given_up, retries, reports, trims, counts_trimmed, Runs, loads, steps,
}

length-remove_at :
    {A : Type 0} (n : ℕ) (x : A) (xs : List A)
    → get_elem? xs n ≡ some x
    → length (remove_at n xs) + 1 ≡ length xs
length-remove_at n x [] h = cc
length-remove_at zero x (y ∷ xs) h = omega arith
length-remove_at (suc n) x (y ∷ xs) h = omega (arith, length-remove_at n x xs h)

module _ {E : Type 0} where
  module _ (item_size : E → ℕ) (with_node : E → E) where
    load_items-IsConserved :
        (f : Forwarder E) (saved : List (E × ℕ)) (now n : ℕ)
        → IsConserved f n
        → IsConserved (load_items item_size f saved now) (n + length saved)
    unfolding load_items
    load_items-IsConserved f [] now n v = rw (add-zero) v
    load_items-IsConserved f ((ev, at) ∷ saved) now n v =
        subst (IsConserved (load_items item_size f ((ev, at) ∷ saved) now)) (omega arith) (
          load_items-IsConserved (append_item f ev (item_size ev) (when at)) saved now (n + 1)
            (append_item-IsConserved f ev (item_size ev) (when at) n v))
      where
        when : ℕ → ℕ
        when at = if at == 0 || ltb (now + 60000000000) at then now else at

  new_forwarder-IsConserved : (config : Config) → IsConserved (new_forwarder {E = E} config) 0
  new_forwarder-IsConserved config = record {
    counted = refl;
    bytes = refl;
    within = λ _. omega arith;
    order = omega arith;
  }

  append_item-in_flight :
      (f : Forwarder E) (ev : E) (size at : ℕ) → (append_item f ev size at).in_flight ≡ f.in_flight
  unfolding append_item drop_event
  append_item-in_flight f ev size at =
      if_intro (λ (g : Forwarder E). g.in_flight ≡ f.in_flight)
        (over_limit (record f { backlog_seq = f.backlog_seq + 1 }) size) (λ _. refl) (λ _. refl)

  load_items-in_flight :
      (item_size : E → ℕ) (saved : List (E × ℕ)) (f : Forwarder E) (now : ℕ)
      → (load_items item_size f saved now).in_flight ≡ f.in_flight
  unfolding load_items
  load_items-in_flight item_size [] f now = refl
  load_items-in_flight item_size ((ev, at) ∷ saved) f now =
      let when = if at == 0 || ltb (now + 60000000000) at then now else at in
      load_items-in_flight item_size saved (append_item f ev (item_size ev) when) now
      ∙ append_item-in_flight f ev (item_size ev) when

  enter_event-in_flight :
      (item_size : E → ℕ) (with_node : E → E) (f : Forwarder E) (ev : E) (now : ℕ) (locked : Bool)
      → (enter_event item_size with_node f ev now locked).in_flight ≡ f.in_flight
  unfolding enter_event drop_event
  enter_event-in_flight item_size with_node f ev now locked =
      if_intro (λ (g : Forwarder E). g.in_flight ≡ f.in_flight) locked (λ _. refl)
        (λ _. append_item-in_flight f _ _ _)

  finish_sent-in_flight : (f : Forwarder E) (size : ℕ) → (finish_sent f size).in_flight ≡ []
  unfolding finish_sent finish_in_flight
  finish_sent-in_flight f size =
      if_intro (λ (g : Forwarder E). g.in_flight ≡ []) (leb size (length f.in_flight)) (λ _. refl)
        (λ _. refl)

  take_batch-Matches :
      (f : Forwarder E) → 0 < length f.backlog → Matches (sending (batch_size f)) (take_batch f)
  unfolding take_batch batch_size
  take_batch-Matches f some_left =
      (ground (arith, length-take (batch_size f) f.backlog), ground arith, ground arith)

  same_in_flight :
      (l : Loop) (f g : Forwarder E) → g.in_flight ≡ f.in_flight → Matches l f → Matches l g
  same_in_flight waiting f g e m = e ∙ m
  same_in_flight (sending size) f g e m = rw e m
  same_in_flight (answered o size) f g e m = rw e m
  same_in_flight (counted_sent size) f g e m = rw e m
  same_in_flight (counted_given_up size) f g e m = rw e m

  -- The account of all events offered, with the numbers of those that are being admitted and
  -- trimmed.
  pub record IsAccount (f : Forwarder E) (l : Loop) (pending trimmed offered : ℕ) : Type 0 where
    pub settled : ℕ
    pub conserved : IsConserved f settled
    pub total :
        offered + (if is_counted l then length f.in_flight else 0) ≡ settled + pending + trimmed
    pub matches : Matches l f

  abbrev pub IsKept : System E → ℕ → Type 0
  IsKept s offered = IsAccount s.forwarder s.loop (length s.pending) s.trimmed offered

  -- The account of a step that leaves the batch where it is.
  moved :
      (f g : Forwarder E) (l : Loop) (p q t u m n k : ℕ)
      → (v : IsAccount f l p t n) → IsConserved g k
      → g.in_flight ≡ f.in_flight
      → k + q + u + n ≡ v.settled + p + t + m
      → IsAccount g l q u m
  moved f g l p q t u m n k v c e h = record {
    settled = k;
    conserved = c;
    total = rw e (omega (arith, v.total, h));
    matches = same_in_flight l f g e v.matches;
  }

  -- The account of a step that ends the round.
  ended :
      (f g : Forwarder E) (l : Loop) (p t n k : ℕ)
      → (v : IsAccount f l p t n) → IsConserved g k
      → g.in_flight ≡ []
      → k + (if is_counted l then length f.in_flight else 0) ≡ v.settled
      → IsAccount g waiting p t n
  ended f g l p t n k v c e h = record {
    settled = k;
    conserved = c;
    total = omega (arith, v.total, h);
    matches = e;
  }

  -- What is settled without the batch in flight, once that is counted.
  left_over :
      (f : Forwarder E) (k : ℕ)
      → IsConserved f k
      → f.sent + f.dropped + length f.backlog + length f.in_flight ≡ k
  left_over f k c = omega (arith, c.counted, length-append f.in_flight f.backlog)

  module _ (item_size : E → ℕ) (with_node : E → E) where
    Step-IsKept :
        {s t : System E} {d : ℕ} (n : ℕ)
        → Step item_size with_node s t d
        → IsKept s n
        → IsKept t (n + d)
    unfolding drop_event answer count_sent count_given_up retry requeue_batch trim_backlog
        count_dropped finish_in_flight
    Step-IsKept {s} n (offers ev h) v =
        moved s.forwarder s.forwarder s.loop (length s.pending) _ s.trimmed s.trimmed (n + 1) n
          v.settled v v.conserved refl (omega arith)
    Step-IsKept {s} n (ignores ev h) v = rw add-zero v
    Step-IsKept {s} n (drops i h) v = rw add-zero (
        moved s.forwarder (drop_event s.forwarder) s.loop (length s.pending)
          (length (remove_at i s.pending)) s.trimmed s.trimmed n n (v.settled + 1) v
          (drop_event-IsConserved s.forwarder v.settled v.conserved) refl
          (omega (arith, length-remove_at i none s.pending h)))
    Step-IsKept {s} n (enters i ev now locked h) v = rw add-zero (
        moved s.forwarder _ s.loop (length s.pending) (length (remove_at i s.pending)) s.trimmed
          s.trimmed n n (v.settled + 1) v
          (enter_event-IsConserved item_size with_node s.forwarder ev now locked v.settled
            v.conserved)
          (enter_event-in_flight item_size with_node s.forwarder ev now locked)
          (omega (arith, length-remove_at i (some ev) s.pending h)))
    Step-IsKept {s} n (starts h some_left) v =
        let w = subst (λ l. IsAccount s.forwarder l (length s.pending) s.trimmed n) h v in
        rw add-zero (record {
          settled = w.settled;
          conserved = take_batch-IsConserved s.forwarder w.settled w.matches w.conserved;
          total = w.total;
          matches = take_batch-Matches s.forwarder some_left;
        })
    Step-IsKept {s} n (answers o {size} h) v =
        let w = subst (λ l. IsAccount s.forwarder l (length s.pending) s.trimmed n) h v in
        rw add-zero (record {
          settled = w.settled;
          conserved = freeze-IsConserved s.forwarder (is_failure o) w.settled w.conserved;
          total = w.total;
          matches = w.matches;
        })
    Step-IsKept {s} n (counts_sent {size} h) v =
        let w = subst (λ l. IsAccount s.forwarder l (length s.pending) s.trimmed n) h v in
        rw add-zero (record {
          settled = w.settled + length s.forwarder.in_flight;
          conserved = count_sent-IsConserved s.forwarder w.settled w.conserved;
          total = omega (arith, w.total);
          matches = w.matches;
        })
    Step-IsKept {s} n (finishes_sent {size} h) v =
        let w = subst (λ l. IsAccount s.forwarder l (length s.pending) s.trimmed n) h v in
        rw add-zero (
          ended s.forwarder (finish_sent s.forwarder size) (counted_sent size) (length s.pending)
            s.trimmed n _ w (finish_sent-IsConserved s.forwarder size w.settled w.conserved)
            (finish_sent-in_flight s.forwarder size) (left_over s.forwarder w.settled w.conserved))
    Step-IsKept {s} n (counts_given_up {o} {size} h failed g) v =
        let w = subst (λ l. IsAccount s.forwarder l (length s.pending) s.trimmed n) h v in
        rw add-zero (record {
          settled = w.settled + length s.forwarder.in_flight;
          conserved = count_given_up-IsConserved s.forwarder w.settled w.conserved;
          total = omega (arith, w.total);
          matches = w.matches;
        })
    Step-IsKept {s} n (finishes_given_up {size} h) v =
        let w = subst (λ l. IsAccount s.forwarder l (length s.pending) s.trimmed n) h v in
        rw add-zero (
          ended s.forwarder (finish_in_flight s.forwarder false) (counted_given_up size)
            (length s.pending) s.trimmed n _ w
            (finish_counted-IsConserved s.forwarder w.settled w.conserved) refl
            (left_over s.forwarder w.settled w.conserved))
    Step-IsKept {s} n (retries {o} {size} h failed g) v =
        let w = subst (λ l. IsAccount s.forwarder l (length s.pending) s.trimmed n) h v in
        rw add-zero (
          ended s.forwarder (retry s.forwarder o size) (answered o size) (length s.pending)
            s.trimmed n w.settled w (retry-IsConserved s.forwarder o size w.settled w.conserved)
            refl (omega arith))
    Step-IsKept {s} n (reports o) v = rw add-zero (
        moved s.forwarder (answer s.forwarder o) s.loop (length s.pending) (length s.pending)
          s.trimmed s.trimmed n n v.settled v
          (freeze-IsConserved s.forwarder (is_failure o) v.settled v.conserved) refl (omega arith))
    Step-IsKept {s} n (trims seqs h) v = rw add-zero (
        moved s.forwarder (trim_backlog s.forwarder seqs).0 s.loop (length s.pending)
          (length s.pending) s.trimmed (trim_backlog s.forwarder seqs).1 n n
          (v.settled - (trim_backlog s.forwarder seqs).1) v
          (trim-IsConserved s.forwarder seqs v.settled v.conserved) refl
          (omega (
            arith,
            h,
            trim_backlog-length s.forwarder seqs,
            left_over s.forwarder v.settled v.conserved,
          )))
    Step-IsKept {s} n counts_trimmed v = rw add-zero (
        moved s.forwarder (count_dropped s.forwarder s.trimmed) s.loop (length s.pending)
          (length s.pending) s.trimmed 0 n n (v.settled + s.trimmed) v
          (count_dropped-IsConserved s.forwarder s.trimmed v.settled v.conserved) refl
          (omega arith))

    -- In every run, each of the `n` events that were loaded or offered has been sent, counted as
    -- dropped, or is held, or is just being admitted or trimmed, where a batch that is counted but
    -- not yet gone counts once; the accounted bytes are those of the held events and stay within
    -- the configured limit, if there is one. What is held is in the order of its arrival, the batch
    -- being sent before the queue. Between two rounds nothing is out; in a round the batch has the
    -- size that was computed for it, from 1 to the bound of a batch.
    pub Runs-IsKept :
        (config : Config) (s : System E) (n : ℕ) → Runs item_size with_node config s n → IsKept s n
    Runs-IsKept config s n (loads saved now) = record {
      settled = length saved;
      conserved =
          subst (IsConserved (load_items item_size (new_forwarder config) saved now)) (omega arith)
            (load_items-IsConserved item_size with_node (new_forwarder config) saved now 0
              (new_forwarder-IsConserved config));
      total = omega arith;
      matches = load_items-in_flight item_size saved (new_forwarder config) now;
    }
    Runs-IsKept config s n (steps run step) = Step-IsKept _ step (Runs-IsKept config _ _ run)
