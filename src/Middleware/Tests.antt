-- ===== src/Middleware/Tests.antt =====
-- The breaker's theorems at a breaker with a threshold of three failures and a timeout of ten, and a
-- sliding window of a second.
use my_go_market.Middleware.WindowTimes.{admitted_in}
use my_go_market.Middleware.Admissions.{Hit, IsOrdered, IsDistinct, admissions, window_bound}
use my_go_market.Prelude.{
  ◌≤◌, List, none, ℕ, ◌-◌, [], ◌∷◌, ◌≡◌, refl, if◌then◌else◌, leb, length, arith, true, ◌+◌,
}
use my_go_market.Middleware.Breaker.{
  state_open, state_closed, CircuitBreaker, Response, circuit_breaker_middleware, is_failure,
  fail_all, failures_trip, open_recovers,
}

abbrev fresh : CircuitBreaker
fresh = record {
  state = state_closed;
  failure_count = 0;
  max_failures = 3;
  timeout = 10;
  last_failure = 0;
}

abbrev tripped : CircuitBreaker
tripped = record fresh { state = state_open; failure_count = 3; last_failure = 20 }

abbrev served : Response
served = record { status = 200; errors = 0 }

failures_trip_example :
    (fail_all (1 ∷ 2 ∷ 3 ∷ []) fresh).state
    ≡ (if leb 3 (0 + length {A = ℕ} (1 ∷ 2 ∷ 3 ∷ [])) then state_open else state_closed)
failures_trip_example = failures_trip 1 (2 ∷ 3 ∷ []) fresh refl

open_recovers_example : circuit_breaker_middleware 31 32 served tripped ≡ (
    if leb (31 - 20) 10 then (record { status = 503; errors = 0 }, tripped) else (
      served,
      (if is_failure served
          then record tripped { failure_count = 4; last_failure = 32 }
          else record tripped { state = state_closed; failure_count = 0 }),
    ))
open_recovers_example = open_recovers 31 32 served tripped refl (omega arith)

-- Three requests of one address within a second, and one of another.
abbrev hits : List Hit
hits =
    record { now = 100; member = 1 ∷ []; ip = 9 ∷ [] }
    ∷ record { now = 200; member = 2 ∷ []; ip = 9 ∷ [] }
    ∷ record { now = 200; member = 3 ∷ []; ip = 8 ∷ [] }
    ∷ record { now = 900; member = 4 ∷ []; ip = 9 ∷ [] }
    ∷ []

window_bound_example : admitted_in 900 1000 (admissions 1000 2 (9 ∷ []) hits [] (λ k. none)) ≤ 2
unfolding IsOrdered IsDistinct my_go_market.Prelude.Text.text_eq
window_bound_example =
    window_bound 1000 2 (9 ∷ []) hits 900 (omega arith)
      (omega arith, (omega arith, (omega arith, (omega arith, tt))))
      ((refl, (refl, (refl, tt))), ((refl, (refl, tt)), ((refl, tt), (tt, tt))))
