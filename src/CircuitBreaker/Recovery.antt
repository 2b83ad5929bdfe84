-- ===== src/CircuitBreaker/Recovery.antt =====
-- When a breaker that is open lets a request through again.
use ara_notification_service.Common.{
  ℕ, ◌+◌, ◌^◌, ◌<◌, ◌≡◌, refl, arith, leb, List, [], ◌∷◌, if◌then◌else◌,
}
use ara_notification_service.CircuitBreaker.Breaker.{
  open_circuit, half_open, CircuitBreaker, CircuitBreakerConfig, timed_out, check_state_transition,
  record_success, record_failure, allow_request,
}
use ara_notification_service.CircuitBreaker.Invariant.{Event, succeeds, fails, checks, step, run}

-- The time from which the timeout counts, for a breaker that was open since `last`: a failure while it
-- is open starts the timeout anew.
abbrev pub open_since : ℕ → List Event → ℕ
open_since last [] = last
open_since last (succeeds now ∷ es) = open_since last es
open_since last (fails now ∷ es) = open_since now es
open_since last (checks now later ∷ es) = open_since last es

-- Every look at the breaker comes before the timeout has passed.
abbrev pub TooEarly : ℕ → ℕ → List Event → Type 0
TooEarly timeout last [] = Unit
TooEarly timeout last (succeeds now ∷ es) = TooEarly timeout last es
TooEarly timeout last (fails now ∷ es) = TooEarly timeout now es
TooEarly timeout last (checks now later ∷ es) = (now < last + timeout) × TooEarly timeout last es

-- Open since `last`, with the configuration.
abbrev IsOpenSince : CircuitBreakerConfig → ℕ → CircuitBreaker → Type 0
IsOpenSince config last b =
    (b.config ≡ config) × (b.state ≡ open_circuit) × (b.last_state_change ≡ last)

module _ (config : CircuitBreakerConfig) (fits : config.reset_timeout_ms < 2 ^ 63) where
  timed_out-leb :
      (b : CircuitBreaker) (last now : ℕ)
      → IsOpenSince config last b
      → timed_out now b ≡ leb (last + config.reset_timeout_ms) now
  timed_out-leb b last now h = ground arith

  success-IsOpenSince :
      (b : CircuitBreaker) (last now : ℕ)
      → IsOpenSince config last b
      → IsOpenSince config last (step b (succeeds now))
  unfolding step record_success
  success-IsOpenSince b last now h = ground arith

  failure-IsOpenSince :
      (b : CircuitBreaker) (last now : ℕ)
      → IsOpenSince config last b
      → IsOpenSince config now (step b (fails now))
  unfolding step record_failure
  failure-IsOpenSince b last now h = ground arith

  check-IsOpenSince :
      (b : CircuitBreaker) (last now later : ℕ)
      → IsOpenSince config last b
      → now < last + config.reset_timeout_ms
      → IsOpenSince config last (step b (checks now later))
  unfolding step check_state_transition
  check-IsOpenSince b last now later h early = ground (arith, timed_out-leb b last now h)

  run-IsOpenSince :
      (es : List Event) (b : CircuitBreaker) (last : ℕ)
      → IsOpenSince config last b
      → TooEarly config.reset_timeout_ms last es
      → IsOpenSince config (open_since last es) (run b es)
  unfolding run
  run-IsOpenSince [] b last h early = h
  run-IsOpenSince (succeeds now ∷ es) b last h early =
      run-IsOpenSince es (step b (succeeds now)) last (success-IsOpenSince b last now h) early
  run-IsOpenSince (fails now ∷ es) b last h early =
      run-IsOpenSince es (step b (fails now)) now (failure-IsOpenSince b last now h) early
  run-IsOpenSince (checks now later ∷ es) b last h early =
      run-IsOpenSince es (step b (checks now later)) last
        (check-IsOpenSince b last now later h early.0) early.1

  allow-open :
      (b : CircuitBreaker) (last now later : ℕ)
      → IsOpenSince config last b
      → let (b', allowed) = allow_request now later b in
        (allowed ≡ leb (last + config.reset_timeout_ms) now)
        × (b'.state
            ≡ (if leb (last + config.reset_timeout_ms) now then half_open else open_circuit))
        × (b'.success_count
            ≡ (if leb (last + config.reset_timeout_ms) now then 0 else b.success_count))
        × (b'.last_state_change
            ≡ (if leb (last + config.reset_timeout_ms) now then later else last))
  unfolding allow_request check_state_transition
  allow-open b last now later h = ground (arith, timed_out-leb b last now h)

-- A breaker that is open, with a timeout below 2^63 milliseconds, stays open through any successes and
-- failures, and any looks at it that come before the timeout has passed, counted from the last failure.
-- After these a request is let through exactly if the timeout has passed by then: the breaker is then
-- half-open since that moment with no success counted, and else open as before.
pub allow_request-open :
    (b : CircuitBreaker) (es : List Event) (now later : ℕ)
    → b.config.reset_timeout_ms < 2 ^ 63
    → b.state ≡ open_circuit
    → TooEarly b.config.reset_timeout_ms b.last_state_change es
    → let since = open_since b.last_state_change es in
      let passed = leb (since + b.config.reset_timeout_ms) now in
      let waiting = run b es in
      let (b', allowed) = allow_request now later waiting in
      (waiting.state ≡ open_circuit)
      × (allowed ≡ passed)
      × (b'.state ≡ (if passed then half_open else open_circuit))
      × (b'.success_count ≡ (if passed then 0 else waiting.success_count))
      × (b'.last_state_change ≡ (if passed then later else since))
allow_request-open b es now later fits o early =
    let kept = run-IsOpenSince b.config fits es b b.last_state_change (refl, o, refl) early in
    let (allowed, state, count, time) =
      allow-open b.config fits (run b es) (open_since b.last_state_change es) now later kept in
    (kept.1, allowed, state, count, time)
