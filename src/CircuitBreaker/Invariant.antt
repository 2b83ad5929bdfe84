-- ===== src/CircuitBreaker/Invariant.antt =====
-- What holds of a breaker between two calls.
use ara_notification_service.Common.{ℕ, ◌<◌, ◌^◌, ◌≡◌, max, arith, List, [], ◌∷◌}
use ara_notification_service.CircuitBreaker.Breaker.{
  CircuitState, closed, open_circuit, half_open, CircuitBreaker, CircuitBreakerConfig,
  check_state_transition, record_success, record_failure,
}

-- A closed breaker has seen fewer failures in a row than the threshold, a half-open one fewer
-- successes, and only a half-open one counts successes. A threshold of 0 works as 1.
abbrev pub Counts : CircuitState → CircuitBreaker → Type 0
Counts closed b = (b.failure_count < max 1 b.config.failure_threshold) × (b.success_count ≡ 0)
Counts open_circuit b = b.success_count ≡ 0
Counts half_open b = b.success_count < max 1 b.config.success_threshold

abbrev pub IsValid : CircuitBreaker → Type 0
IsValid b = Counts b.state b

-- The thresholds are 32 bits wide.
abbrev pub ConfigOk : CircuitBreakerConfig → Type 0
ConfigOk c = (c.failure_threshold < 2 ^ 32) × (c.success_threshold < 2 ^ 32)

pub data Event : Type 0 where
  succeeds : ℕ → Event
  fails : ℕ → Event
  checks : ℕ → ℕ → Event

unfoldable pub step : CircuitBreaker → Event → CircuitBreaker
step b (succeeds now) = record_success now b
step b (fails now) = record_failure now b
step b (checks now later) = check_state_transition now later b

unfoldable pub run : CircuitBreaker → List Event → CircuitBreaker
run b [] = b
run b (e ∷ es) = run (step b e) es

pub config-step : (b : CircuitBreaker) (e : Event) → (step b e).config ≡ b.config
unfolding step record_success record_failure check_state_transition
config-step b e = ground arith

pub step_in-IsValid :
    (b : CircuitBreaker) (s : CircuitState) (e : Event)
    → b.state ≡ s
    → ConfigOk b.config
    → Counts s b
    → IsValid (step b e)
unfolding step record_success record_failure check_state_transition
step_in-IsValid b s e q c v = ground arith
