-- ===== src/Upstream/Tests.antt =====
-- The pool at concrete upstreams, and the theorems where their hypotheses hold.
use resolix.Common.{
  ℕ, ◌+◌, ◌-◌, ◌*◌, ◌/◌, ◌≡◌, inl, inr, refl, true, false, not, Option, none, some, List, [], ◌∷◌,
  ◌++◌, map, ◌==◌, leb, nat_comparable, list_comparable, if◌then◌else◌, Text, bytes, trim_space,
  find, store,
}
use resolix.Upstream.Spec.{Spec, ok, SpecPackages, normalized_key, parse, plain_spec}
use resolix.Upstream.Valid.{Promises, parse-Promises}
use resolix.Upstream.Message.{Msg, a}
use resolix.Upstream.Stats.{Floats, record_latency, count_failure, count_success}
use resolix.Upstream.Pool.{
  dns_resolver, name_of, Pool, build_resolvers, new_pool, set_primary_specs, set_bootstrap_servers,
  set_runtime_settings, clear_route_cache, group_resolvers, route_resolver,
}
use resolix.Upstream.Exchange.{
  replied, refused, World, answered, stat_for, healthy, exchange_context, exchange_strict,
  weighted_order, exchange_parallel, exchange_by_mode, exchange, exchange_route, exchange_specs,
}
use resolix.Upstream.History.{Attempt, attempts, history, closed_until}
use resolix.Upstream.Failover.{is_answer, exchange-is_answer}

abbrev digits : ℕ → Text → Option ℕ
digits n [] = some n
digits n (c ∷ s) =
    let rest = digits (n * 10 + (c - 48)) s in
    if leb 48 c then (if leb c 57 then rest else none) else none

abbrev number : Text → Option ℕ
number [] = none
number (c ∷ s) = digits 0 (c ∷ s)

abbrev split_colon : Text → Option (Text × Text)
split_colon s = if s == bytes "1.1.1.1:54" then some (bytes "1.1.1.1", bytes "54") else none

-- The one URL that can be parsed has a weight for its query.
abbrev few_texts : SpecPackages
few_texts = record {
  Values = Text;
  parse_url = λ s.
      if s == bytes "https://Dns.Google.?weight=7"
      then some (bytes "HTTPS", bytes "Dns.Google.", [], [], bytes "7")
      else none;
  get = λ k v. if k == bytes "weight" then v else [];
  del = λ k v. [];
  is_empty = λ v. v == [];
  encode = λ v. v;
  is_ip = λ s. if s == bytes "1.1.1.1" then true else s == bytes "8.8.8.8";
  split_host_port = split_colon;
  join_host_port = λ host port. host ++ bytes ":" ++ port;
  atoi = number;
  parse_duration = λ s. none;
}

abbrev spaced : Text
spaced = bytes " https://Dns.Google.?weight=7 "

program : Unit {0}
unfolding normalized_key parse record_latency count_failure count_success build_resolvers new_pool
    set_primary_specs set_bootstrap_servers set_runtime_settings clear_route_cache group_resolvers
    route_resolver healthy exchange_context exchange_strict weighted_order exchange_parallel
    exchange_by_mode exchange exchange_route exchange_specs find store
program = tt

abbrev google : Spec
google = record {
  scheme = bytes "https";
  host = bytes "dns.google";
  port = bytes "443";
  path = bytes "/dns-query";
  query = [];
  timeout = 0;
  weight = 7;
  raw = bytes "https://Dns.Google.?weight=7";
}

google_parsed : parse few_texts spaced ≡ ok google
unfolding program
google_parsed = refl

hash_parsed :
    parse few_texts (bytes "1.1.1.1#54")
    ≡ ok (plain_spec few_texts (bytes "1.1.1.1#54") (bytes "1.1.1.1") (bytes "54"))
unfolding program
hash_parsed = refl

parse-Promises_example : Promises few_texts (trim_space spaced) (ok google)
unfolding program
parse-Promises_example = parse-Promises few_texts refl refl spaced

abbrev whole_numbers : Floats
whole_numbers = record {
  Float = ℕ;
  nought = 0;
  is_nought = λ x. x == 0;
  of_micros = λ n. n / 1000;
  smooth = λ ms ewma. (ms + 3 * ewma) / 4;
  weigh = λ ewma penalty weight. weight;
  add = λ x y. x + y;
  sub = λ x y. x - y;
  mul = λ x y. x * y;
  is_positive = λ x. not (x == 0);
}

abbrev a_reply : Msg
a_reply = record { question = []; rcode = 0; answer = a (bytes "x.") 60 (9 ∷ []) ∷ []; extra = [] }

-- 1.1.1.1 never answers; any other upstream does, after a microsecond.
abbrev one_down : World
one_down = record {
  floats = whole_numbers;
  ask = λ r m now.
      if name_of r == bytes "1.1.1.1"
      then (refused (bytes "timeout"), now + 1000)
      else (replied a_reply, now + 1000);
  is_unhealthy = λ raw. false;
  race = λ rs m now. map (λ r. (r, (replied a_reply, now + 1000))) rs;
  do_bit = λ m. false;
  draw = λ n. 0;
}

abbrev a_pool : Text → Pool ℕ
a_pool mode =
    new_pool few_texts mode (bytes "1.1.1.1" ∷ bytes "8.8.8.8" ∷ bytes "8.8.8.8:" ∷ []) [] none
      false []

abbrev ask_x : Msg
ask_x = record { question = (bytes "x.", 1) ∷ []; rcode = 0; answer = []; extra = [] }

names_built : map name_of (a_pool []).primary ≡ bytes "1.1.1.1" ∷ bytes "8.8.8.8" ∷ []
unfolding program
names_built = refl

strict_answer :
    (exchange one_down ask_x (a_pool (bytes "strict")) 0).1 ≡ answered a_reply (bytes "8.8.8.8")
unfolding program
strict_answer = refl

-- After three exchanges the circuit of the upstream that fails is open.
abbrev three_attempts : List Attempt
three_attempts =
    map
      (λ n. (
        dns_resolver (plain_spec few_texts (bytes "1.1.1.1") (bytes "1.1.1.1") (bytes "53")),
        (ask_x, n),
      ))
      (0 ∷ 5 ∷ 9 ∷ [])

circuit_open :
    (stat_for one_down
      (attempts one_down three_attempts (a_pool (bytes "strict")))
      (bytes "1.1.1.1")).circuit_until
    ≡ 30000001009
unfolding program
circuit_open = refl

three_events :
    closed_until (history one_down none (bytes "1.1.1.1") three_attempts []) ≡ 30000001009
unfolding program
three_events = refl

exchange-is_answer_example : is_answer (exchange one_down ask_x (a_pool []) 0).1 ≡ true
unfolding program
exchange-is_answer_example = exchange-is_answer one_down ask_x (a_pool []) 0 refl (
    inl (
      dns_resolver (plain_spec few_texts (bytes "8.8.8.8") (bytes "8.8.8.8") (bytes "53")),
      (inr (inl refl), (refl, λ m now. (a_reply, refl))),
    ))
