-- ===== src/CircuitBreaker/Runs.antt =====
-- Runs of the breaker: what holds throughout, and when it opens.
use ara_notification_service.Common.{ℕ, ◌+◌, ◌<◌, ◌≡◌, refl, max, arith, List, [], ◌∷◌, sym}
use mathlib.Core.Path.{subst}
use ara_notification_service.CircuitBreaker.Breaker.{
  closed, open_circuit, CircuitBreaker, CircuitBreakerConfig, with_config, check_state_transition,
  record_success, record_failure,
}
use ara_notification_service.CircuitBreaker.Invariant.{
  IsValid, ConfigOk, Event, succeeds, fails, checks, step, run, config-step, step_in-IsValid,
}

-- Whatever happens to a new breaker, its counters stay below the thresholds of its state.
pub run-IsValid :
    (b : CircuitBreaker) (es : List Event) → ConfigOk b.config → IsValid b → IsValid (run b es)
unfolding run
run-IsValid b [] c v = v
run-IsValid b (e ∷ es) c v =
    run-IsValid (step b e) es (subst ConfigOk (sym (config-step b e)) c)
      (step_in-IsValid b b.state e refl c v)

-- How many failures in a row stand at the end of a history that began with `n` of them.
abbrev pub streak : ℕ → List Event → ℕ
streak n [] = n
streak n (succeeds now ∷ es) = streak 0 es
streak n (fails now ∷ es) = streak (n + 1) es
streak n (checks now later ∷ es) = streak n es

-- The history never had `limit` failures in a row.
abbrev pub StaysBelow : ℕ → ℕ → List Event → Type 0
StaysBelow limit n [] = n < limit
StaysBelow limit n (succeeds now ∷ es) = (n < limit) × StaysBelow limit 0 es
StaysBelow limit n (fails now ∷ es) = (n < limit) × StaysBelow limit (n + 1) es
StaysBelow limit n (checks now later ∷ es) = (n < limit) × StaysBelow limit n es

StaysBelow-start : (limit n : ℕ) (es : List Event) → StaysBelow limit n es → n < limit
StaysBelow-start limit n [] h = h
StaysBelow-start limit n (succeeds now ∷ es) h = h.0
StaysBelow-start limit n (fails now ∷ es) h = h.0
StaysBelow-start limit n (checks now later ∷ es) h = h.0

-- Closed, with the configuration and the count of failures.
abbrev pub IsClosedAt : CircuitBreakerConfig → ℕ → CircuitBreaker → Type 0
IsClosedAt config n b = (b.config ≡ config) × (b.state ≡ closed) × (b.failure_count ≡ n)

module _ (config : CircuitBreakerConfig) (ok : ConfigOk config) where
  success-IsClosedAt :
      (b : CircuitBreaker) (n now : ℕ)
      → IsClosedAt config n b
      → IsClosedAt config 0 (step b (succeeds now))
  unfolding step record_success
  success-IsClosedAt b n now h = ground arith

  check-IsClosedAt :
      (b : CircuitBreaker) (n now later : ℕ)
      → IsClosedAt config n b
      → IsClosedAt config n (step b (checks now later))
  unfolding step check_state_transition
  check-IsClosedAt b n now later h = ground arith

  failure-IsClosedAt :
      (b : CircuitBreaker) (n now : ℕ)
      → IsClosedAt config n b
      → n + 1 < max 1 config.failure_threshold
      → IsClosedAt config (n + 1) (step b (fails now))
  unfolding step record_failure
  failure-IsClosedAt b n now h below = ground arith

  run-IsClosedAt :
      (es : List Event) (b : CircuitBreaker) (n : ℕ)
      → IsClosedAt config n b
      → StaysBelow (max 1 config.failure_threshold) n es
      → IsClosedAt config (streak n es) (run b es)
  unfolding run
  run-IsClosedAt [] b n h below = h
  run-IsClosedAt (succeeds now ∷ es) b n h below =
      run-IsClosedAt es (step b (succeeds now)) 0 (success-IsClosedAt b n now h) below.1
  run-IsClosedAt (fails now ∷ es) b n h below =
      run-IsClosedAt es (step b (fails now)) (n + 1)
        (failure-IsClosedAt b n now h (StaysBelow-start _ _ es below.1)) below.1
  run-IsClosedAt (checks now later ∷ es) b n h below =
      run-IsClosedAt es (step b (checks now later)) n (check-IsClosedAt b n now later h) below.1

  failure_opens :
      (b : CircuitBreaker) (n now : ℕ)
      → IsClosedAt config n b
      → n + 1 ≡ max 1 config.failure_threshold
      → ((step b (fails now)).state ≡ open_circuit) × ((step b (fails now)).last_state_change ≡ now)
  unfolding step record_failure
  failure_opens b n now h e = ground arith

  -- A new breaker stays closed through any history that never had the threshold of failures in a row,
  -- with the length of the last row as its count.
  pub stays_closed :
      (t : ℕ) (es : List Event)
      → StaysBelow (max 1 config.failure_threshold) 0 es
      → IsClosedAt config (streak 0 es) (run (with_config t config) es)
  unfolding with_config
  stays_closed t es below = run-IsClosedAt es (with_config t config) 0 (refl, refl, refl) below

  -- The failure that completes the first row as long as the threshold opens it, at that time.
  pub opens_at_threshold :
      (t now : ℕ) (es : List Event)
      → StaysBelow (max 1 config.failure_threshold) 0 es
      → streak 0 es + 1 ≡ max 1 config.failure_threshold
      → let b = step (run (with_config t config) es) (fails now) in
        (b.state ≡ open_circuit) × (b.last_state_change ≡ now)
  opens_at_threshold t now es below e =
      failure_opens (run (with_config t config) es) (streak 0 es) now (stays_closed t es below) e
