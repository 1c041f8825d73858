-- ===== src/Upstream/Exchange.antt =====
-- An exchange through the pool (webgui/internal/upstream/pool.go, from Exchange on). The network
-- is a parameter: what a resolver answers to a message that it gets at a time, and when. A method
-- takes the time at which it is called, and returns the time at which it ends.
use resolix.Common.{
  ℕ, zero, suc, ◌+◌, ◌-◌, ◌*◌, ◌/◌, Bool, false, not, ◌&&◌, Option, none, some, List, [], ◌∷◌, ◌++◌,
  length, map, keep, ltb, ◌==◌, nat_comparable, list_comparable, if◌then◌else◌, Text, bytes, find,
  store, remove_at,
}
use resolix.Upstream.Spec.{SpecPackages, selection_weight, timeout_duration, second}
use resolix.Upstream.Message.{Rr, Msg, with_ecs, has_aaaa, synthesized, type_aaaa, a_question}
use resolix.Upstream.Stats.{Floats, Stat, new_stat, count_failure, count_success}
use resolix.Upstream.Pool.{
  Resolver, resolver_spec, name_of, Pool, group_resolvers, Routed, through, no_route,
  route_resolver,
}

-- What a resolver returns: a message, an error, or neither.
pub data Reply : Type 0 where
  replied : Msg → Reply
  refused : Text → Reply
  nothing : Reply

pub record World : Type 1 where
  pub floats : Floats
  pub ask : Resolver → Msg → ℕ → Reply × ℕ
  -- the health data: a latency below 0
  pub is_unhealthy : Text → Bool
  -- in a race of these resolvers that starts at this time: the replies in the order in which
  -- they come, each with its time; a resolver that is cancelled returns an error
  pub race : List Resolver → Msg → ℕ → List (Resolver × (Reply × ℕ))
  -- IsEdns0 and Do
  pub do_bit : Msg → Bool
  -- the n-th call of rand.Float64
  pub draw : ℕ → floats.Float

-- The result of an exchange: the message and the upstream used, or an error.
pub data Exchanged : Type 0 where
  answered : Msg → Text → Exchanged
  failed : Text → Exchanged

module _ (world : World) where
  open world use {floats, ask, race, is_unhealthy, do_bit, draw}
  open floats use {Float, nought, of_micros, weigh, add, sub, mul, is_positive}

  abbrev pub or_new : Option (Stat Float) → Stat Float
  or_new none = new_stat floats
  or_new (some st) = st

  -- statFor; an upstream without statistics has those of a new one, which are stored with the
  -- first change.
  abbrev pub stat_for : Pool Float → Text → Stat Float
  stat_for p raw = or_new (find raw p.stats)

  abbrev pub set_stat : Text → Stat Float → Pool Float → Pool Float
  set_stat raw st p = record p { stats = store raw st p.stats }

  abbrev pub is_healthy : Pool Float → ℕ → Resolver → Bool
  is_healthy p now r =
      not (ltb now ((stat_for p (name_of r)).circuit_until)) && not (is_unhealthy (name_of r))

  abbrev pub or_all : List Resolver → List Resolver → List Resolver
  or_all rs [] = rs
  or_all rs (r ∷ out) = r ∷ out

  -- healthy
  unfoldable pub healthy : Pool Float → ℕ → List Resolver → List Resolver
  healthy p now rs = or_all rs (keep (is_healthy p now) rs)

  abbrev pub is_aaaa_query : List (Text × ℕ) → Bool
  is_aaaa_query [] = false
  is_aaaa_query ((name, qtype) ∷ questions) = qtype == type_aaaa

  abbrev pub first_name : List (Text × ℕ) → Text
  first_name [] = []
  first_name ((name, qtype) ∷ questions) = name

  abbrev pub or_answer : Msg → List Rr → Msg
  or_answer resp [] = resp
  or_answer resp (rr ∷ rrs) = record resp { answer = rr ∷ rrs }

  abbrev pub from_a : Pool Float → Text → Msg → Reply → Msg
  from_a p name resp (replied sub_resp) =
      or_answer resp (synthesized p.dns64_prefixes name sub_resp.answer)
  from_a p name resp (refused e) = resp
  from_a p name resp nothing = resp

  -- The end of exchangeContext: synthesizeDNS64 asks the same resolver again.
  abbrev pub with_dns64 : Pool Float → Resolver → Msg → Msg → ℕ → Msg × ℕ
  with_dns64 p r m resp now =
      if p.dns64 && is_aaaa_query m.question && resp.rcode == 0 && not (has_aaaa resp.answer)
      then (let (reply, end) = ask r (a_question (first_name m.question)) now in
          (from_a p (first_name m.question) resp reply, end))
      else (resp, now)

  abbrev pub fail : Pool Float → Resolver → Text → ℕ → (Pool Float × ℕ) × Exchanged
  fail p r e now = (
    (set_stat (name_of r) (count_failure floats e now (stat_for p (name_of r))) p, now),
    failed e,
  )

  -- What exchangeContext does with the reply of the resolver, after the time since the start.
  abbrev pub settle : Pool Float → Resolver → Msg → Reply → ℕ → ℕ → (Pool Float × ℕ) × Exchanged
  settle p r m (refused e) start now = fail p r e now
  settle p r m nothing start now = fail p r (bytes "upstream returned an empty response") now
  settle p r m (replied resp) start now =
      let st = count_success floats (of_micros ((now - start) / 1000)) (stat_for p (name_of r)) in
      let (full, end) = with_dns64 p r m resp now in
      ((set_stat (name_of r) st p, end), answered full (name_of r))

  -- exchangeContext, with the answer under the resolver's name. Its atomic updates of the statistics,
  -- which have no lock, are one step.
  unfoldable pub exchange_context : Pool Float → Resolver → Msg → ℕ → (Pool Float × ℕ) × Exchanged
  exchange_context p r m now =
      let (reply, end) = ask r (with_ecs p.ecs do_bit m) now in settle p r m reply now end

  -- exchangeStrict, with the last error so far
  abbrev pub try_next :
      (Pool Float → ℕ → Text → (Pool Float × ℕ) × Exchanged)
      → (Pool Float × ℕ) × Exchanged
      → (Pool Float × ℕ) × Exchanged
  try_next rest (s, answered resp used) = (s, answered resp used)
  try_next rest ((p, now), failed e) = rest p now e

  unfoldable pub exchange_strict :
      List Resolver → Msg → Pool Float → ℕ → Text → (Pool Float × ℕ) × Exchanged
  exchange_strict [] m p now last_error = ((p, now), failed last_error)
  exchange_strict (r ∷ rs) m p now last_error =
      let rest = exchange_strict rs m in try_next rest (exchange_context p r m now)

  abbrev pub weight_of : Pool Float → Resolver → Float
  weight_of p r =
      let st = stat_for p (name_of r) in
      weigh st.ewma_ms st.failure_penalty (selection_weight (resolver_spec r))

  abbrev pub total : Float → List (Resolver × Float) → Float
  total sum [] = sum
  total sum ((r, x) ∷ remaining) = total (add sum x) remaining

  -- The index at which the weights reach the pick, 0 if none does.
  abbrev pub index_of : Float → ℕ → List (Resolver × Float) → ℕ
  index_of pick i [] = 0
  index_of pick i ((r, x) ∷ remaining) =
      let rest = index_of (sub pick x) (i + 1) remaining in
      if is_positive (sub pick x) then rest else i

  abbrev pub resolver_at : ℕ → List (Resolver × Float) → List Resolver
  resolver_at i [] = []
  resolver_at zero ((r, x) ∷ remaining) = r ∷ []
  resolver_at (suc i) (c ∷ remaining) = resolver_at i remaining

  -- The loop of weightedOrder, which ends when nothing remains; the n-th turn draws n.
  abbrev pub draw_all : ℕ → ℕ → List (Resolver × Float) → List Resolver
  draw_all zero n remaining = []
  draw_all (suc fuel) n remaining =
      let i = index_of (mul (draw n) (total nought remaining)) 0 remaining in
      resolver_at i remaining ++ draw_all fuel (n + 1) (remove_at i remaining)

  abbrev pub weighed : Pool Float → List Resolver → List (Resolver × Float)
  weighed p candidates = map (λ r. (r, weight_of p r)) candidates

  -- weightedOrder
  unfoldable pub weighted_order : Pool Float → List Resolver → List Resolver
  weighted_order p candidates = draw_all (length candidates) 0 (weighed p candidates)

  abbrev pub max_timeout : ℕ → List Resolver → ℕ
  max_timeout most [] = most
  max_timeout most (r ∷ rs) =
      max_timeout
        (if ltb most (timeout_duration (resolver_spec r))
          then timeout_duration (resolver_spec r)
          else most)
        rs

  -- The goroutines of exchangeParallel, each of which ends exchangeContext; those that end after
  -- the first answer are counted in the same step.
  abbrev pub settle_all :
      Pool Float
      → Msg
      → ℕ
      → List (Resolver × (Reply × ℕ))
      → Pool Float × List ((Pool Float × ℕ) × Exchanged)
  settle_all p m start [] = (p, [])
  settle_all p m start ((r, (reply, end)) ∷ replies) =
      let one = settle p r m reply start end in
      let (q, results) = settle_all one.0.0 m start replies in (q, one ∷ results)

  -- The loop over the results, until the deadline; the last time is the one of the return.
  abbrev pub first_result : ℕ → ℕ → List ((Pool Float × ℕ) × Exchanged) → ℕ × Exchanged
  first_result deadline now [] = (now, failed (bytes "parallel exchange: all upstreams failed"))
  first_result deadline now (((p, end), answered resp used) ∷ results) =
      if ltb deadline end
      then (deadline, failed (bytes "parallel exchange: context deadline exceeded"))
      else (end, answered resp used)
  first_result deadline now (((p, end), failed e) ∷ results) =
      let rest = first_result deadline end results in
      if ltb deadline end
      then (deadline, failed (bytes "parallel exchange: context deadline exceeded"))
      else rest

  -- exchangeParallel
  unfoldable pub exchange_parallel :
      List Resolver → Msg → Pool Float → ℕ → (Pool Float × ℕ) × Exchanged
  exchange_parallel candidates m p now =
      let (q, results) = settle_all p m now (race candidates (with_ecs p.ecs do_bit m) now) in
      let (end, result) =
        first_result (now + max_timeout (5 * second) candidates + second) now results in
      ((q, end), result)

  -- exchangeByMode
  unfoldable pub exchange_by_mode :
      List Resolver → Msg → Pool Float → ℕ → (Pool Float × ℕ) × Exchanged
  exchange_by_mode [] m p now = ((p, now), failed (bytes "no upstreams available"))
  exchange_by_mode (r ∷ rs) m p now =
      if p.mode == bytes "parallel"
      then exchange_parallel (r ∷ rs) m p now
      else if p.mode == bytes "load_balance"
      then exchange_strict (weighted_order p (r ∷ rs)) m p now []
      else exchange_strict (r ∷ rs) m p now []

  abbrev pub or_fallback :
      List Resolver → Msg → (Pool Float × ℕ) × Exchanged → (Pool Float × ℕ) × Exchanged
  or_fallback fallback m (s, answered resp used) = (s, answered resp used)
  or_fallback [] m (s, failed e) = (s, failed e)
  or_fallback (r ∷ rs) m ((p, now), failed e) = exchange_by_mode (healthy p now (r ∷ rs)) m p now

  -- Exchange
  unfoldable pub exchange : Msg → Pool Float → ℕ → (Pool Float × ℕ) × Exchanged
  exchange m p now = or_fallback p.fallback m (exchange_by_mode (healthy p now p.primary) m p now)

  module _ (packages : SpecPackages) where
    abbrev pub through_route : Msg → ℕ → Pool Float × Routed → (Pool Float × ℕ) × Option Exchanged
    through_route m now (p, no_route e) = ((p, now), none)
    through_route m now (p, through r) =
        let (s, result) = exchange_context p r m now in (s, some result)

    -- ExchangeRoute; none stands for a specification that does not parse.
    unfoldable pub exchange_route :
        Text → Msg → Pool Float → ℕ → (Pool Float × ℕ) × Option Exchanged
    exchange_route raw m p now = through_route m now (route_resolver packages raw p)

    abbrev pub through_group : Msg → ℕ → Pool Float × List Resolver → (Pool Float × ℕ) × Exchanged
    through_group m now (p, []) = ((p, now), failed (bytes "no usable upstreams in spec set"))
    through_group m now (p, r ∷ rs) = exchange_by_mode (r ∷ rs) m p now

    -- ExchangeSpecs
    unfoldable pub exchange_specs :
        List Text → ℕ → Msg → Pool Float → ℕ → (Pool Float × ℕ) × Exchanged
    exchange_specs specs victim m p now =
        through_group m now (group_resolvers packages specs victim p)
