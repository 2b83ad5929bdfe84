-- ===== src/CircuitBreaker/Breaker.antt =====
-- The state and the methods of `CircuitBreaker`.
use ara_notification_service.Common.{
  ℕ, zero, suc, ◌+◌, ◌%◌, ◌^◌, Bool, true, false, leb, if◌then◌else◌, as_i64, sub_ℕ, leb_ℤ,
}

pub data CircuitState : Type 0 where
  closed open_circuit half_open : CircuitState

-- `as u8`, and `From<u8>`.
abbrev pub as_u8 : CircuitState → ℕ
as_u8 closed = 0
as_u8 open_circuit = 1
as_u8 half_open = 2

abbrev pub from_u8 : ℕ → CircuitState
from_u8 zero = closed
from_u8 (suc zero) = open_circuit
from_u8 (suc (suc zero)) = half_open
from_u8 _ = closed

pub record CircuitBreakerConfig : Type 0 where
  pub failure_threshold : ℕ
  pub success_threshold : ℕ
  pub reset_timeout_ms : ℕ

abbrev pub default_config : CircuitBreakerConfig
default_config = record { failure_threshold = 5; success_threshold = 2; reset_timeout_ms = 30000 }

-- Times are milliseconds since the epoch.
pub record CircuitBreaker : Type 0 where
  pub state : CircuitState
  pub failure_count : ℕ
  pub success_count : ℕ
  pub last_state_change : ℕ
  pub config : CircuitBreakerConfig

unfoldable pub with_config : ℕ → CircuitBreakerConfig → CircuitBreaker
with_config now config = record {
  state = closed;
  failure_count = 0;
  success_count = 0;
  last_state_change = now;
  config = config;
}

-- The counters are 32 bits wide.
abbrev pub u32 : ℕ → ℕ
u32 n = n % 2 ^ 32

unfoldable pub reset_counts : CircuitState → CircuitBreaker → CircuitBreaker
reset_counts closed b = record b { failure_count = 0; success_count = 0 }
reset_counts open_circuit b = record b { success_count = 0 }
reset_counts half_open b = record b { success_count = 0 }

unfoldable pub transition_to : ℕ → CircuitState → CircuitBreaker → CircuitBreaker
unfolding reset_counts
transition_to now new_state b =
    reset_counts new_state (record b { state = new_state; last_state_change = now })

-- Has the breaker been open for the reset timeout?
abbrev pub timed_out : ℕ → CircuitBreaker → Bool
timed_out now b = leb_ℤ (as_i64 b.config.reset_timeout_ms) (sub_ℕ now b.last_state_change)

-- The clock is read at `now` for the test and at `later` for the new time stamp.
unfoldable pub half_open_if : CircuitState → ℕ → ℕ → CircuitBreaker → CircuitBreaker
half_open_if open_circuit now later b =
    if timed_out now b
    then record b { state = half_open; success_count = 0; last_state_change = later }
    else b
half_open_if _ now later b = b

unfoldable pub check_state_transition : ℕ → ℕ → CircuitBreaker → CircuitBreaker
unfolding half_open_if
check_state_transition now later b = half_open_if b.state now later b

-- `state()`: it may move the breaker on.
unfoldable pub state : ℕ → ℕ → CircuitBreaker → CircuitBreaker × CircuitState
unfolding check_state_transition
state now later b = let b' = check_state_transition now later b in (b', b'.state)

abbrev pub allows : CircuitState → Bool
allows closed = true
allows open_circuit = false
allows half_open = true

unfoldable pub allow_request : ℕ → ℕ → CircuitBreaker → CircuitBreaker × Bool
unfolding state
allow_request now later b = let (b', s) = state now later b in (b', allows s)

unfoldable pub success_in : CircuitState → ℕ → CircuitBreaker → CircuitBreaker
unfolding transition_to
success_in closed now b = record b { failure_count = 0 }
success_in half_open now b =
    let n = u32 (b.success_count + 1) in
    let b' = record b { success_count = n } in
    if leb b.config.success_threshold n then transition_to now closed b' else b'
success_in open_circuit now b = b

unfoldable pub record_success : ℕ → CircuitBreaker → CircuitBreaker
unfolding success_in
record_success now b = success_in b.state now b

unfoldable pub failure_in : CircuitState → ℕ → CircuitBreaker → CircuitBreaker
unfolding transition_to
failure_in closed now b =
    let n = u32 (b.failure_count + 1) in
    let b' = record b { failure_count = n } in
    if leb b.config.failure_threshold n then transition_to now open_circuit b' else b'
failure_in half_open now b = transition_to now open_circuit b
failure_in open_circuit now b = record b { last_state_change = now }

unfoldable pub record_failure : ℕ → CircuitBreaker → CircuitBreaker
unfolding failure_in
record_failure now b = failure_in b.state now b

pub record CircuitBreakerStats : Type 0 where
  pub state : CircuitState
  pub failure_count : ℕ
  pub success_count : ℕ
  pub last_state_change_ms : ℕ

unfoldable pub stats : ℕ → ℕ → CircuitBreaker → CircuitBreaker × CircuitBreakerStats
unfolding state
stats now later b =
    let (b', s) = state now later b in
    (
      b',
      record {
        state = s;
        failure_count = b'.failure_count;
        success_count = b'.success_count;
        last_state_change_ms = b'.last_state_change;
      },
    )
