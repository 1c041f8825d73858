-- ===== src/Sessions/Tests.antt =====
-- The sessions of a few calls, and the theorems where their hypotheses hold.
use resolix.Common.{
  Text, ℕ, ◌*◌, ◌≡◌, refl, true, false, none, some, List, [], ◌∷◌, bytes, find, store, without,
  arith,
}
use resolix.Sessions.Table.{
  new_session, valid_session, lookup_session, session_alive, session_csrf_token, Call, issues,
  validates, deletes, run,
}
use resolix.Sessions.Bounded.{IsBounded}
use resolix.Sessions.Abstract.{is_live, after_all, accepted-after_all}
use resolix.Sessions.Issued.{validations, IsAnswered, issued-validated}
use resolix.Sessions.Login.{
  second, LoginLimiter, get_rate_limit_backoff, check_rate_limit, record_failed_login,
  reset_rate_limit,
}
use resolix.Sessions.Backoff.{check-record}

program : Unit {0}
unfolding new_session valid_session lookup_session session_alive session_csrf_token find store
    without
program = tt

abbrev hours : ℕ → ℕ
hours n = n * 3600000000000

-- "b" is deleted, and "c" is left alone for too long.
abbrev a_day : List Call
a_day =
    issues (bytes "a") (bytes "x") 0
    ∷ issues (bytes "b") (bytes "y") 1
    ∷ issues (bytes "c") (bytes "z") 2
    ∷ deletes (bytes "b")
    ∷ validates (bytes "a") (hours 11)
    ∷ []

a_accepted : (valid_session (bytes "a") (hours 20) (run a_day [])).1 ≡ true
unfolding program
a_accepted = refl

a_too_old : (valid_session (bytes "a") (hours 24) (run (a_day) [])).1 ≡ false
unfolding program
a_too_old = refl

c_idle : (valid_session (bytes "c") (hours 13) (run a_day [])).1 ≡ false
unfolding program
c_idle = refl

b_deleted : session_alive (bytes "b") 3 (run a_day []) ≡ false
unfolding program
b_deleted = refl

accepted-after_all_example :
    IsBounded (run a_day [])
    × ((s : ℕ × ℕ) × ((after_all (bytes "a") a_day none ≡ some s) × (is_live (hours 20) s ≡ true)))
accepted-after_all_example = accepted-after_all a_day (bytes "a") (hours 20) a_accepted

-- Used every 11 hours, the session ends after 24 hours, not earlier and not later.
abbrev used_twice : List (Text × ℕ)
used_twice = (bytes "t", hours 11) ∷ (bytes "u", hours 12) ∷ (bytes "t", hours 22) ∷ []

ends_in_time : after_all (bytes "t") (validations used_twice) (some (0, 0)) ≡ some (0, hours 22)
ends_in_time = refl

issued-validated_example :
    IsAnswered
      (bytes "t")
      (bytes "x")
      (hours 24)
      (run (validations used_twice) (new_session (bytes "t") (bytes "x") 0 []))
      (some (0, hours 22))
issued-validated_example =
    issued-validated (bytes "t") (bytes "x") 0 (hours 24) [] used_twice
      (record { unique = tt; room = omega arith }) (λ e. cc)
      (omega arith, (omega arith, (omega arith, omega arith)))

abbrev no_failures : LoginLimiter
no_failures = record { rate_limits = []; global_failures = [] }

abbrev three_failures : LoginLimiter
three_failures = record_failed_login (bytes "p") (3 * second) (
    record_failed_login (bytes "p") (2 * second)
      (record_failed_login (bytes "p") second no_failures))

login_program : Unit {0}
unfolding find store without get_rate_limit_backoff check_rate_limit record_failed_login
login_program = tt

waits_two : (check_rate_limit (bytes "p") (3 * second) three_failures).1 ≡ some (2 * second)
unfolding login_program
waits_two = refl

check-record_example :
    ((check_rate_limit
        (bytes "p")
        (3 * second)
        (record_failed_login (bytes "p") (3 * second) no_failures)).1
      ≡ none)
    × (((check_rate_limit
            (bytes "q")
            (3 * second)
            (record_failed_login (bytes "p") (3 * second) no_failures)).1
          ≡ none)
        × ((check_rate_limit (bytes "p") (3 * second) (
              reset_rate_limit
                (bytes "p")
                (record_failed_login (bytes "p") (3 * second) no_failures))).1
            ≡ none))
unfolding login_program
check-record_example =
    check-record (bytes "p") (bytes "q") (3 * second) (3 * second) no_failures (omega arith) refl
      refl
