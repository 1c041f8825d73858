-- ===== src/Upstream/Failover.antt =====
-- An upstream that works is reached (webgui/internal/upstream/pool.go, Exchange).
use mathlib.Core.Path.{subst}
use resolix.Common.{
  ℕ, ◌≡◌, ◌≢◌, ◌∙◌, ◌⊎◌, inl, inr, refl, ap, Bool, true, false, List, [], ◌∷◌, keep, All, All-keep,
  Member, ◌==◌, nat_comparable, list_comparable, if_intro, Text, bytes,
}
use resolix.Upstream.Message.{Msg, with_ecs}
use resolix.Upstream.Pool.{Resolver, Pool}
use resolix.Upstream.Exchange.{
  Reply, replied, refused, nothing, World, Exchanged, answered, failed, is_healthy, or_all, healthy,
  settle, exchange_context, exchange_strict, try_next, exchange_by_mode, exchange, or_fallback,
  weighted_order,
}
use resolix.Upstream.Order.{weighted_order-Member}

abbrev pub is_answer : Exchanged → Bool
is_answer (answered resp used) = true
is_answer (failed e) = false

module _ (world : World) where
  open world use {floats, ask, do_bit}
  open floats use {Float}

  -- The resolver answers every message, whenever it is asked.
  abbrev pub Answers : Resolver → Type 0
  Answers r = (m : Msg) (now : ℕ) → (resp : Msg) × ((ask r m now).0 ≡ replied resp)

  -- An exchange that answers, or leaves the mode as it was.
  abbrev Result : Type 0
  Result = (Pool Float × ℕ) × Exchanged

  settle-is_answer :
      (p : Pool Float) (r : Resolver) (m : Msg) (reply : Reply) (start end : ℕ) (resp : Msg)
      → reply ≡ replied resp
      → is_answer (settle world p r m reply start end).1 ≡ true
  settle-is_answer p r m reply start end resp e = rw e refl

  context-is_answer :
      (p : Pool Float) (r : Resolver) (m : Msg) (now : ℕ)
      → Answers r
      → is_answer (exchange_context world p r m now).1 ≡ true
  unfolding exchange_context
  context-is_answer p r m now h =
      let found = h (with_ecs p.ecs do_bit m) now in
      settle-is_answer p r m (ask r (with_ecs p.ecs do_bit m) now).0 now
        (ask r (with_ecs p.ecs do_bit m) now).1 found.0 found.1

  try_next-answered :
      (rest : Pool Float → ℕ → Text → Result) (s : Result)
      → is_answer s.1 ≡ true
      → is_answer (try_next world rest s).1 ≡ true
  try_next-answered rest (s, answered resp used) h = refl
  try_next-answered rest (s, failed e) h = cc

  try_next-later :
      (rest : Pool Float → ℕ → Text → Result) (s : Result)
      → ((p : Pool Float) (now : ℕ) (e : Text) → is_answer (rest p now e).1 ≡ true)
      → is_answer (try_next world rest s).1 ≡ true
  try_next-later rest (s, answered resp used) h = refl
  try_next-later rest ((p, now), failed e) h = h p now e

  strict-is_answer :
      (x : Resolver) (rs : List Resolver) (m : Msg) (p : Pool Float) (now : ℕ) (e : Text)
      → Member x rs
      → Answers x
      → is_answer (exchange_strict world rs m p now e).1 ≡ true
  unfolding exchange_strict
  strict-is_answer x [] m p now e k h = absurd (k tt)
  strict-is_answer x (r ∷ rs) m p now e (inl same) h =
      try_next-answered (exchange_strict world rs m) (exchange_context world p r m now)
        (context-is_answer p r m now (subst Answers same h))
  strict-is_answer x (r ∷ rs) m p now e (inr k) h =
      try_next-later (exchange_strict world rs m) (exchange_context world p r m now)
        (λ q t f. strict-is_answer x rs m q t f k h)

  by_mode-is_answer :
      (x : Resolver) (rs : List Resolver) (m : Msg) (p : Pool Float) (now : ℕ)
      → (p.mode == bytes "parallel") ≡ false
      → Member x rs
      → Answers x
      → is_answer (exchange_by_mode world rs m p now).1 ≡ true
  unfolding exchange_by_mode
  by_mode-is_answer x [] m p now n k h = absurd (k tt)
  by_mode-is_answer x (r ∷ rs) m p now n k h = rw n (
      if_intro (λ (s : Result). is_answer s.1 ≡ true) (p.mode == bytes "load_balance")
        (λ _.
          strict-is_answer x (weighted_order world p (r ∷ rs)) m p now []
            (weighted_order-Member world x p (r ∷ rs) k) h)
        (λ _. strict-is_answer x (r ∷ rs) m p now [] k h))

  keep-Member :
      (q : Resolver → Bool) (x : Resolver) (rs : List Resolver)
      → Member x rs
      → q x ≡ true
      → Member x (keep q rs)
  keep-Member q x [] k h = k
  keep-Member q x (r ∷ rs) (inl e) h = rw (subst (λ y. q y ≡ true) e h) (inl e)
  keep-Member q x (r ∷ rs) (inr k) h =
      if_intro (λ out. Member x out) (q r) (λ _. inr (keep-Member q x rs k h))
        (λ _. keep-Member q x rs k h)

  or_all-Member :
      (x : Resolver) (rs out : List Resolver) → Member x out → Member x (or_all world rs out)
  or_all-Member x rs [] k = absurd (k tt)
  or_all-Member x rs (r ∷ out) k = k

  healthy-Member :
      (x : Resolver) (p : Pool Float) (now : ℕ) (rs : List Resolver)
      → Member x rs
      → is_healthy world p now x ≡ true
      → Member x (healthy world p now rs)
  unfolding healthy
  healthy-Member x p now rs k h =
      or_all-Member x rs (keep (is_healthy world p now) rs)
        (keep-Member (is_healthy world p now) x rs k h)

  -- The candidates of a list with a member have one.
  or_all-Answers :
      (rs out : List Resolver)
      → rs ≢ []
      → All Answers rs
      → All Answers out
      → (x : Resolver) × (Member x (or_all world rs out) × Answers x)
  or_all-Answers [] [] n a b = absurd (n refl)
  or_all-Answers (r ∷ rs) [] n a b = (r, (inl refl, a.0))
  or_all-Answers rs (o ∷ out) n a b = (o, (inl refl, b.0))

  -- No exchange changes the mode.
  abbrev SameMode : Pool Float → Result → Type 0
  SameMode p s = s.0.0.mode ≡ p.mode

  settle-SameMode :
      (p : Pool Float) (r : Resolver) (m : Msg) (reply : Reply) (start end : ℕ)
      → SameMode p (settle world p r m reply start end)
  settle-SameMode p r m (refused e) start end = refl
  settle-SameMode p r m nothing start end = refl
  settle-SameMode p r m (replied resp) start end = refl

  try_next-SameMode :
      (p : Pool Float) (rest : Pool Float → ℕ → Text → Result) (s : Result)
      → SameMode p s
      → ((q : Pool Float) (now : ℕ) (e : Text) → SameMode q (rest q now e))
      → SameMode p (try_next world rest s)
  try_next-SameMode p rest (s, answered resp used) k h = k
  try_next-SameMode p rest ((q, now), failed e) k h = h q now e ∙ k

  strict-SameMode :
      (rs : List Resolver) (m : Msg) (p : Pool Float) (now : ℕ) (e : Text)
      → SameMode p (exchange_strict world rs m p now e)
  unfolding exchange_strict exchange_context
  strict-SameMode [] m p now e = refl
  strict-SameMode (r ∷ rs) m p now e =
      try_next-SameMode p (exchange_strict world rs m) (exchange_context world p r m now)
        (settle-SameMode p r m _ now _) (λ q t f. strict-SameMode rs m q t f)

  by_mode-SameMode :
      (rs : List Resolver) (m : Msg) (p : Pool Float) (now : ℕ)
      → (p.mode == bytes "parallel") ≡ false
      → SameMode p (exchange_by_mode world rs m p now)
  unfolding exchange_by_mode
  by_mode-SameMode [] m p now n = refl
  by_mode-SameMode (r ∷ rs) m p now n = rw n (
      if_intro (SameMode p) (p.mode == bytes "load_balance")
        (λ _. strict-SameMode (weighted_order world p (r ∷ rs)) m p now [])
        (λ _. strict-SameMode (r ∷ rs) m p now []))

  or_fallback-answered :
      (fallback : List Resolver) (m : Msg) (s : Result)
      → is_answer s.1 ≡ true
      → is_answer (or_fallback world fallback m s).1 ≡ true
  or_fallback-answered fallback m (s, answered resp used) h = refl
  or_fallback-answered fallback m (s, failed e) h = cc

  or_fallback-is_answer :
      (fallback : List Resolver) (m : Msg) (s : Result)
      → (s.0.0.mode == bytes "parallel") ≡ false
      → fallback ≢ []
      → All Answers fallback
      → is_answer (or_fallback world fallback m s).1 ≡ true
  unfolding healthy
  or_fallback-is_answer fallback m (s, answered resp used) n f h = refl
  or_fallback-is_answer [] m (s, failed e) n f h = absurd (f refl)
  or_fallback-is_answer (r ∷ rs) m ((p, now), failed e) n f h =
      let out = keep (is_healthy world p now) (r ∷ rs) in
      let one =
        or_all-Answers (r ∷ rs) out f h (All-keep Answers (is_healthy world p now) (r ∷ rs) h) in
      by_mode-is_answer one.0 (or_all world (r ∷ rs) out) m p now n one.1.0 one.1.1

  -- In strict and in load-balancing mode, when an upstream of the first list that answers every
  -- message has a closed circuit and is not reported unhealthy, or when there is a second list and
  -- all upstreams on it answer every message, an exchange ends with an answer, whatever the other
  -- upstreams do, how long they take and in which order they are drawn.
  pub exchange-is_answer :
      (m : Msg) (p : Pool Float) (now : ℕ)
      → (p.mode == bytes "parallel") ≡ false
      → ((x : Resolver) × (Member x p.primary × ((is_healthy world p now x ≡ true) × Answers x)))
        ⊎ ((p.fallback ≢ []) × All Answers p.fallback)
      → is_answer (exchange world m p now).1 ≡ true
  unfolding exchange
  exchange-is_answer m p now n (inl (x, (k, (good, h)))) =
      or_fallback-answered p.fallback m
        (exchange_by_mode world (healthy world p now p.primary) m p now)
        (by_mode-is_answer x (healthy world p now p.primary) m p now n
          (healthy-Member x p now p.primary k good) h)
  exchange-is_answer m p now n (inr (f, h)) =
      or_fallback-is_answer p.fallback m
        (exchange_by_mode world (healthy world p now p.primary) m p now)
        (ap (λ mode. mode == bytes "parallel")
            (by_mode-SameMode (healthy world p now p.primary) m p now n)
          ∙ n)
        f h
