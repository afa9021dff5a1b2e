-- ===== src/Middleware/Breaker.antt =====
-- common/middleware/broker.go: the circuit breaker. Times are numbers in the unit of the clock; the
-- first time of a breaker, Go's zero time, is 0. A step is one call with its locks held throughout,
-- and a request is the middleware's: `allow`, the handler, `report_result`.
use my_go_market.Prelude.{
  ℕ, zero, suc, length, Bool, true, false, List, [], ◌∷◌, ◌≡◌, ◌≢◌, ◌∙◌, ◌||◌, ◌⊎◌, inl, inr,
  if◌then◌else◌, ltb, leb, Bool-cases, arith, ◌+◌, ◌-◌, ◌≤◌, ◌<◌,
}
use my_go_market.Prelude.Int.{ℤ, pos, negsuc}

pub data State : Type 0 where
  state_closed state_open state_half_open : State

pub record CircuitBreaker : Type 0 where
  pub state : State
  pub failure_count : ℕ
  pub max_failures : ℕ
  pub timeout : ℕ
  pub last_failure : ℕ

unfoldable pub new_circuit_breaker : (max_failures timeout : ℕ) → CircuitBreaker
new_circuit_breaker max_failures timeout = record {
  state = state_closed;
  failure_count = 0;
  max_failures = max_failures;
  timeout = timeout;
  last_failure = 0;
}

-- `Allow` at a time: the answer, and the breaker after it.
unfoldable pub allow : (now : ℕ) → CircuitBreaker → Bool × CircuitBreaker
allow now cb = elim cb.state [
  | state_closed ↦ (true, cb)
  | state_open ↦
      if ltb cb.timeout (now - cb.last_failure)
      then (true, record cb { state = state_half_open })
      else (false, cb)
  | state_half_open ↦ (true, cb)
]

-- `ReportResult` at a time; `failed` says that its error is not nil.
unfoldable pub report_result : (now : ℕ) → (failed : Bool) → CircuitBreaker → CircuitBreaker
report_result now failed cb =
    if failed
    then if leb cb.max_failures (cb.failure_count + 1)
      then record cb {
        state = state_open;
        failure_count = cb.failure_count + 1;
        last_failure = now;
      }
      else record cb { failure_count = cb.failure_count + 1; last_failure = now }
    else record cb { state = state_closed; failure_count = 0 }

-- What the handler left in the response.
pub record Response : Type 0 where
  pub status : ℕ
  pub errors : ℕ

-- The errors of the response, or a status of 500 on, count as a failure.
unfoldable pub is_failure : Response → Bool
is_failure r = leb 500 r.status || ltb 0 r.errors

-- `CircuitBreakerMiddleware`: a request that is answered 503, or the handler's response. `now` is
-- the time of the test and `later` that of the report.
unfoldable pub circuit_breaker_middleware :
    (now later : ℕ) → (handler : Response) → CircuitBreaker → Response × CircuitBreaker
circuit_breaker_middleware now later handler cb =
    let (allowed, cb1) = allow now cb in
    if allowed
    then (handler, report_result later (is_failure handler) cb1)
    else (record { status = 503; errors = 0 }, cb1)

-- `ConfiguredCircuitBreaker`: the thresholds that a configuration gives, with the defaults, in
-- seconds. A configured value is signed.
unfoldable pub configured_max_failures : ℤ → ℕ
configured_max_failures (pos zero) = 50
configured_max_failures (pos (suc n)) = suc n
configured_max_failures (negsuc n) = 50

unfoldable pub configured_timeout : (timeout_seconds : ℤ) → ℕ
configured_timeout (pos zero) = 30
configured_timeout (pos (suc n)) = suc n
configured_timeout (negsuc n) = 30

unfoldable pub configured_circuit_breaker : (max_failures timeout_seconds : ℤ) → CircuitBreaker
configured_circuit_breaker max_failures timeout_seconds =
    new_circuit_breaker (configured_max_failures max_failures) (configured_timeout timeout_seconds)

-- One call on the breaker. Requests overlap, so the calls come in any order.
pub data Call : Type 0 where
  to_allow : (now : ℕ) → Call
  to_report : (now : ℕ) → (failed : Bool) → Call

unfoldable pub perform : Call → CircuitBreaker → CircuitBreaker
unfolding allow report_result
perform (to_allow now) cb = (allow now cb).1
perform (to_report now failed) cb = report_result now failed cb

unfoldable pub perform_all : List Call → CircuitBreaker → CircuitBreaker
unfolding perform
perform_all [] cb = cb
perform_all (c ∷ cs) cb = perform_all cs (perform c cb)

-- A closed breaker has counted fewer failures than its threshold, or has none; one that is not
-- closed has counted at least that many.
abbrev pub IsConsistent : CircuitBreaker → Type 0
IsConsistent cb =
    ((cb.state ≡ state_closed) × ((cb.max_failures ≡ 0) ⊎ (cb.failure_count < cb.max_failures)))
    ⊎ ((cb.state ≢ state_closed) × (cb.max_failures ≤ cb.failure_count))

perform-IsConsistent :
    (c : Call) (cb : CircuitBreaker) → IsConsistent cb → IsConsistent (perform c cb)
unfolding perform allow report_result
perform-IsConsistent (to_allow now) cb i = ground arith
perform-IsConsistent (to_report now true) cb i =
    elim (Bool-cases (leb cb.max_failures (cb.failure_count + 1))) [
      | inl reached ↦ inr (λ h. ground arith, ground arith)
      | inr below ↦ ground arith
    ]
perform-IsConsistent (to_report now false) cb i = ground arith

perform_all-IsConsistent :
    (cs : List Call) (cb : CircuitBreaker) → IsConsistent cb → IsConsistent (perform_all cs cb)
unfolding perform_all
perform_all-IsConsistent [] cb i = i
perform_all-IsConsistent (c ∷ cs) cb i =
    perform_all-IsConsistent cs (perform c cb) (perform-IsConsistent c cb i)

-- Whatever calls of Allow and ReportResult a new breaker has served, in any order: where it is
-- closed, it has counted fewer failures than its threshold or the threshold is 0, and where it is
-- open or half-open, it has counted at least its threshold.
pub breaker-IsConsistent :
    (max_failures timeout : ℕ) (cs : List Call)
    → IsConsistent (perform_all cs (new_circuit_breaker max_failures timeout))
unfolding new_circuit_breaker
breaker-IsConsistent max_failures timeout cs =
    perform_all-IsConsistent cs (new_circuit_breaker max_failures timeout) (ground arith)

-- Failures that are reported at these times, one after another.
unfoldable pub fail_all : List ℕ → CircuitBreaker → CircuitBreaker
fail_all [] cb = cb
fail_all (t ∷ ts) cb = fail_all ts (report_result t true cb)

failed_once :
    (t : ℕ) (cb : CircuitBreaker)
    → ((report_result t true cb).max_failures ≡ cb.max_failures)
      × ((report_result t true cb).failure_count ≡ cb.failure_count + 1)
      × ((report_result t true cb).state
          ≡ (if leb cb.max_failures (cb.failure_count + 1) then state_open else cb.state))
unfolding report_result
failed_once t cb = ground arith

stays_open :
    (ts : List ℕ) (cb : CircuitBreaker)
    → cb.state ≡ state_open
    → cb.max_failures ≤ cb.failure_count
    → (fail_all ts cb).state ≡ state_open
unfolding fail_all
stays_open [] cb o le = o
stays_open (t ∷ ts) cb o le =
    let (m, f, st) = failed_once t cb in
    stays_open ts (report_result t true cb) (ground (arith, st)) (ground (arith, m, f))

-- A closed breaker that then sees only failures, at least one of them, is open exactly where they
-- bring its count to the threshold; otherwise it is still closed.
pub failures_trip :
    (t : ℕ) (ts : List ℕ) (cb : CircuitBreaker)
    → cb.state ≡ state_closed
    → (fail_all (t ∷ ts) cb).state ≡ (
        if leb cb.max_failures (cb.failure_count + length (t ∷ ts))
        then state_open
        else state_closed)
unfolding fail_all
failures_trip t [] cb c = ground (arith, failed_once t cb)
failures_trip t (u ∷ ts) cb c =
    let (m, f, st) = failed_once t cb in
    elim (Bool-cases (leb cb.max_failures (cb.failure_count + 1))) [
      | inl reached ↦
          stays_open (u ∷ ts) (report_result t true cb) (ground (arith, st)) (ground (arith, m, f))
          ∙ ground arith
      | inr below ↦
          failures_trip u ts (report_result t true cb) (ground (arith, st)) ∙ ground (arith, m, f)
    ]

-- A request at an open breaker that has counted its threshold: up to the timeout after the last
-- failure it is answered 503 without the handler and the breaker stays as it is; later the handler
-- answers, and its success closes the breaker with the count at 0, while its failure leaves the
-- breaker open, counted on, with the time of this failure.
pub open_recovers :
    (now later : ℕ) (handler : Response) (cb : CircuitBreaker)
    → cb.state ≡ state_open
    → cb.max_failures ≤ cb.failure_count
    → circuit_breaker_middleware now later handler cb ≡ (
        if leb (now - cb.last_failure) cb.timeout
        then (record { status = 503; errors = 0 }, cb)
        else (
          handler,
          (if is_failure handler
              then record cb { failure_count = cb.failure_count + 1; last_failure = later }
              else record cb { state = state_closed; failure_count = 0 }),
        ))
unfolding circuit_breaker_middleware allow report_result
open_recovers now later handler cb o le =
    elim (Bool-cases (leb (now - cb.last_failure) cb.timeout)) [
      | inl early ↦ ground arith
      | inr late ↦ elim (Bool-cases (is_failure handler)) [
        | inl failed ↦ ground arith
        | inr fine ↦ ground arith
      ]
    ]
