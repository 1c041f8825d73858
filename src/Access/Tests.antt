-- ===== src/Access/Tests.antt =====
-- The gate and the limiter at concrete clients, and the theorems where their hypotheses hold.
use resolix.Addresses.{eight_bits}
use resolix.Common.{
  ℕ, ◌+◌, ◌-◌, ◌*◌, ◌/◌, ◌^◌, ◌≤◌, ◌≡◌, refl, true, false, none, List, [], ◌∷◌, ◌==◌, leb,
  nat_comparable, list_comparable, bytes, arith, find, without,
}
use resolix.Access.Clientnets.{
  ClientNet, parse_cidr_list, cidr_list_contains, is_internal_client_ip, client_key,
}
use resolix.Access.Limiter.{billion, RateLimiter, allow_at_rate, cleanup}
use resolix.Access.Spent.{IsBounded, credit}
use resolix.Access.Rate.{Call, asks, cleans, run, admitted, starts, admitted_le}
use resolix.Access.Paced.{admitted-asked}
use resolix.Access.Gate.{Limits, Gate, passes, drops, refuses, new_gate, admit, serve_dns}
use resolix.Access.Permitted.{IsRight, serve_dns-IsRight}

-- Addresses are single bytes: those below 32 are private, and the mask leaves the leading bits.
abbrev byte_net : ClientNet
byte_net = record {
  net = eight_bits;
  ip_string = λ ip. ip ∷ [];
  masked_string = λ n ip. (ip / 2 ^ (8 - n)) ∷ [];
  is_loopback = λ ip. ip == 1;
  is_private = λ ip. leb ip 31;
  is_link_local_unicast = λ ip. false;
  octets = λ ip. none;
  decimal = λ n. (48 + n) ∷ [];
}

program : Unit {0}
unfolding parse_cidr_list cidr_list_contains is_internal_client_ip client_key allow_at_rate cleanup
    admit serve_dns find without
program = tt

abbrev a_limits : Limits
a_limits = record {
  rate_limit_qps = 1;
  internal_rate_limit_qps = 2;
  rate_limit_ede = true;
  ipv4_prefix = 0;
  ipv6_prefix = 0;
}

abbrev closed : Gate (ℕ × ℕ)
closed = new_gate byte_net a_limits [] (bytes "Q") []

abbrev open_gate : Gate (ℕ × ℕ)
open_gate = new_gate byte_net a_limits (bytes "A/4, z") (bytes "Q B") (bytes "z")

-- Without an allow list, the own networks alone.
private_passes : (serve_dns byte_net closed (5 ∷ []) false 0).1 ≡ passes
unfolding program
private_passes = refl

public_dropped : (serve_dns byte_net closed (bytes "A") false 0).1 ≡ drops
unfolding program
public_dropped = refl

listed_passes : (serve_dns byte_net open_gate (bytes "A") false 0).1 ≡ passes
unfolding program
listed_passes = refl

disallowed_dropped : (serve_dns byte_net open_gate (bytes "B") false 0).1 ≡ drops
unfolding program
disallowed_dropped = refl

-- The second query within a second is refused, with an extended error if the client can read it.
again : Gate (ℕ × ℕ)
again = (serve_dns byte_net open_gate (bytes "A") false 7).0

second_refused : (serve_dns byte_net again (bytes "A") true 8).1 ≡ refuses
unfolding program again
second_refused = refl

second_dropped : (serve_dns byte_net again (bytes "A") false 8).1 ≡ drops
unfolding program again
second_dropped = refl

serve_dns-IsRight_example :
    IsRight byte_net closed (bytes "A") 0 (serve_dns byte_net closed (bytes "A") false 0)
serve_dns-IsRight_example = serve_dns-IsRight byte_net closed (bytes "A") false 0

abbrev empty_table : RateLimiter
empty_table = record { qps = 1; max_buckets = 1; buckets = [] }

empty_table-IsBounded : IsBounded empty_table
empty_table-IsBounded = record { unique = tt; room = omega arith; some_room = omega arith }

-- The second query of "a" is refused; the one of "b" takes the only bucket.
abbrev some_calls : List Call
some_calls =
    asks (bytes "a") 1 0
    ∷ asks (bytes "a") 1 1
    ∷ asks (bytes "b") 9 2
    ∷ asks (bytes "a") 1 3
    ∷ cleans 5 2000000000
    ∷ []

two_admitted : admitted (bytes "a") empty_table some_calls ≡ 2
unfolding program
two_admitted = refl

two_starts : starts (bytes "a") empty_table some_calls ≡ 2
unfolding program
two_starts = refl

admitted_le_example :
    IsBounded (run empty_table some_calls)
    × (admitted (bytes "a") empty_table some_calls * billion
        ≤ credit 1 0 none
          + starts (bytes "a") empty_table some_calls * (1 * billion)
          + (2000000000 - 0) * 1)
unfolding find
admitted_le_example =
    admitted_le (bytes "a") 1 0 empty_table some_calls empty_table-IsBounded (λ e. cc) (omega arith)
      (omega arith, (omega arith, (omega arith, (omega arith, (omega arith, tt)))))
      ((λ _. refl), ((λ _. refl), ((λ e. cc), ((λ _. refl), (tt, tt)))))

-- Two queries of "a" a second apart, with one of "b" between them.
abbrev paced_calls : List Call
paced_calls =
    asks (bytes "a") 1 1000000000
    ∷ asks (bytes "b") 9 1500000000
    ∷ asks (bytes "a") 1 2000000000
    ∷ []

admitted-asked_example : admitted (bytes "a") empty_table paced_calls ≡ 2
unfolding find
admitted-asked_example =
    admitted-asked (bytes "a") 1 0 0 empty_table paced_calls empty_table-IsBounded (omega arith) tt
      (omega arith) (omega arith, (omega arith, (omega arith, tt)))
      ((λ _. refl), ((λ e. cc), ((λ _. refl), tt)))
      ((λ _. omega arith), ((λ e. cc), ((λ _. omega arith), tt)))
