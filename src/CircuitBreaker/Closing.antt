-- ===== src/CircuitBreaker/Closing.antt =====
-- When a breaker that is half-open closes, and when it opens again.
use ara_notification_service.Common.{
  ℕ, ◌+◌, ◌<◌, ◌≡◌, refl, max, arith, leb, List, [], ◌∷◌, if◌then◌else◌,
}
use ara_notification_service.CircuitBreaker.Breaker.{
  closed, open_circuit, half_open, CircuitBreaker, CircuitBreakerConfig, check_state_transition,
  record_success, record_failure,
}
use ara_notification_service.CircuitBreaker.Invariant.{
  ConfigOk, Event, succeeds, fails, checks, step, run,
}

-- The successes of a history without failures.
abbrev pub successes : List Event → ℕ
successes [] = 0
successes (succeeds now ∷ es) = successes es + 1
successes (fails now ∷ es) = successes es
successes (checks now later ∷ es) = successes es

abbrev pub NoFailure : List Event → Type 0
NoFailure [] = Unit
NoFailure (succeeds now ∷ es) = NoFailure es
NoFailure (fails now ∷ es) = ⊥
NoFailure (checks now later ∷ es) = NoFailure es

-- Half-open, with the configuration and the count of successes.
abbrev IsHalfOpenAt : CircuitBreakerConfig → ℕ → CircuitBreaker → Type 0
IsHalfOpenAt config n b = (b.config ≡ config) × (b.state ≡ half_open) × (b.success_count ≡ n)

module _ (config : CircuitBreakerConfig) (ok : ConfigOk config) where
  success-IsHalfOpenAt :
      (b : CircuitBreaker) (n now : ℕ)
      → IsHalfOpenAt config n b
      → n + 1 < max 1 config.success_threshold
      → IsHalfOpenAt config (n + 1) (step b (succeeds now))
  unfolding step record_success
  success-IsHalfOpenAt b n now h below = ground arith

  check-IsHalfOpenAt :
      (b : CircuitBreaker) (n now later : ℕ)
      → IsHalfOpenAt config n b
      → IsHalfOpenAt config n (step b (checks now later))
  unfolding step check_state_transition
  check-IsHalfOpenAt b n now later h = ground arith

  run-IsHalfOpenAt :
      (es : List Event) (b : CircuitBreaker) (n : ℕ)
      → IsHalfOpenAt config n b
      → NoFailure es
      → n + successes es < max 1 config.success_threshold
      → IsHalfOpenAt config (n + successes es) (run b es)
  unfolding run
  run-IsHalfOpenAt [] b n h calm below = ground arith
  run-IsHalfOpenAt (succeeds now ∷ es) b n h calm below = ground (
    arith,
    run-IsHalfOpenAt es (step b (succeeds now)) (n + 1)
        (success-IsHalfOpenAt b n now h (omega arith)) calm (omega arith),
  )
  run-IsHalfOpenAt (fails now ∷ es) b n h calm below = elim calm [ ]
  run-IsHalfOpenAt (checks now later ∷ es) b n h calm below =
      run-IsHalfOpenAt es (step b (checks now later)) n (check-IsHalfOpenAt b n now later h) calm
        below

  success_half_open :
      (b : CircuitBreaker) (n now : ℕ)
      → IsHalfOpenAt config n b
      → n < max 1 config.success_threshold
      → let b' = step b (succeeds now) in
        let enough = leb (max 1 config.success_threshold) (n + 1) in
        (b'.state ≡ (if enough then closed else half_open))
        × (b'.failure_count ≡ (if enough then 0 else b.failure_count))
        × (b'.success_count ≡ (if enough then 0 else n + 1))
        × (b'.last_state_change ≡ (if enough then now else b.last_state_change))
  unfolding step record_success
  success_half_open b n now h below = ground arith

  failure_reopens :
      (b : CircuitBreaker) (n now : ℕ)
      → IsHalfOpenAt config n b
      → let b' = step b (fails now) in
        (b'.state ≡ open_circuit) × (b'.success_count ≡ 0) × (b'.last_state_change ≡ now)
  unfolding step record_failure
  failure_reopens b n now h = ground arith

-- A half-open breaker with thresholds of 32 bits stays half-open through successes and looks at it as
-- long as the successes are fewer than the threshold, and counts them; a threshold of 0 works as 1.
-- One more success closes it at that time with its counters at 0 if it completes the threshold, and
-- else is counted and changes nothing; a failure in its place opens it at that time.
pub closes_at_threshold :
    (b : CircuitBreaker) (es : List Event) (now : ℕ)
    → ConfigOk b.config
    → b.state ≡ half_open
    → NoFailure es
    → b.success_count + successes es < max 1 b.config.success_threshold
    → let trial = run b es in
      let good = step trial (succeeds now) in
      let bad = step trial (fails now) in
      let n = b.success_count + successes es in
      let enough = leb (max 1 b.config.success_threshold) (n + 1) in
      (trial.state ≡ half_open)
      × (trial.success_count ≡ n)
      × ((good.state ≡ (if enough then closed else half_open))
          × (good.failure_count ≡ (if enough then 0 else trial.failure_count))
          × (good.success_count ≡ (if enough then 0 else n + 1))
          × (good.last_state_change ≡ (if enough then now else trial.last_state_change)))
      × ((bad.state ≡ open_circuit) × (bad.success_count ≡ 0) × (bad.last_state_change ≡ now))
closes_at_threshold b es now ok half calm below =
    let n = b.success_count in
    let kept = run-IsHalfOpenAt b.config ok es b n (refl, half, refl) calm below in
    (
      kept.1,
      kept.2,
      success_half_open b.config ok (run b es) (n + successes es) now kept below,
      failure_reopens b.config ok (run b es) (n + successes es) now kept,
    )
