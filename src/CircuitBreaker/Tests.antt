-- ===== src/CircuitBreaker/Tests.antt =====
-- Runs of the breaker, and instances of its theorems.
use ara_notification_service.Common.{◌≡◌, refl, arith, true, List, [], ◌∷◌}
use ara_notification_service.CircuitBreaker.Breaker.{
  closed, open_circuit, half_open, CircuitBreaker, CircuitBreakerConfig, with_config,
  check_state_transition, record_success, record_failure, allow_request,
}
use ara_notification_service.CircuitBreaker.Invariant.{
  IsValid, ConfigOk, succeeds, fails, checks, Event, step, run,
}
use ara_notification_service.CircuitBreaker.Runs.{
  run-IsValid, IsClosedAt, stays_closed, opens_at_threshold,
}
use ara_notification_service.CircuitBreaker.Recovery.{allow_request-open}
use ara_notification_service.CircuitBreaker.Closing.{closes_at_threshold}

program : Unit {0}
unfolding with_config step run record_success record_failure check_state_transition allow_request
program = tt

abbrev config : CircuitBreakerConfig
config = record { failure_threshold = 3; success_threshold = 2; reset_timeout_ms = 1000 }

abbrev fresh : CircuitBreaker
fresh = with_config 0 config

abbrev shaky : List Event
shaky = fails 1 ∷ fails 2 ∷ succeeds 3 ∷ fails 4 ∷ checks 5 6 ∷ fails 7 ∷ []

-- Open since time 8, and half-open from 2000 on.
abbrev opened : CircuitBreaker
opened = record {
  state = open_circuit;
  failure_count = 3;
  success_count = 0;
  last_state_change = 8;
  config = config;
}

abbrev trial : CircuitBreaker
trial = record opened { state = half_open; last_state_change = 2000 }

opened_runs : step (run fresh shaky) (fails 8) ≡ opened
unfolding program
opened_runs = refl

trial_runs : allow_request 2000 2000 opened ≡ (trial, true)
unfolding program
trial_runs = refl

config_ok : ConfigOk config
config_ok = omega arith

run-IsValid_example : IsValid (run fresh shaky)
unfolding with_config
run-IsValid_example = run-IsValid fresh shaky (omega arith) (omega arith)

stays_closed_example : IsClosedAt config 2 (run fresh shaky)
stays_closed_example = stays_closed config config_ok 0 shaky (omega arith)

opens_at_threshold_example :
    ((step (run fresh shaky) (fails 8)).state ≡ open_circuit)
    × ((step (run fresh shaky) (fails 8)).last_state_change ≡ 8)
opens_at_threshold_example =
    opens_at_threshold config config_ok 0 8 shaky (omega arith) (omega arith)

-- The failure at 500 starts the timeout anew, so the look at 1400 is too early.
abbrev waiting : List Event
waiting = checks 900 900 ∷ fails 500 ∷ succeeds 600 ∷ checks 1400 1400 ∷ []

allow_request-open_example :
    let trial = run opened waiting in
    (trial.state ≡ open_circuit)
    × ((allow_request 1500 1501 trial).1 ≡ true)
    × ((allow_request 1500 1501 trial).0.state ≡ half_open)
    × ((allow_request 1500 1501 trial).0.success_count ≡ 0)
    × ((allow_request 1500 1501 trial).0.last_state_change ≡ 1501)
allow_request-open_example =
    allow_request-open opened waiting 1500 1501 (omega arith) refl (omega arith)

closes_at_threshold_example :
    let now_closed = step (run trial (succeeds 2001 ∷ checks 2002 2002 ∷ [])) (succeeds 2003) in
    let reopened = step (run trial (succeeds 2001 ∷ checks 2002 2002 ∷ [])) (fails 2003) in
    ((run trial (succeeds 2001 ∷ checks 2002 2002 ∷ [])).state ≡ half_open)
    × ((run trial (succeeds 2001 ∷ checks 2002 2002 ∷ [])).success_count ≡ 1)
    × ((now_closed.state ≡ closed)
        × (now_closed.failure_count ≡ 0)
        × (now_closed.success_count ≡ 0)
        × (now_closed.last_state_change ≡ 2003))
    × ((reopened.state ≡ open_circuit)
        × (reopened.success_count ≡ 0)
        × (reopened.last_state_change ≡ 2003))
closes_at_threshold_example =
    closes_at_threshold trial (succeeds 2001 ∷ checks 2002 2002 ∷ []) 2003 config_ok refl
      (omega arith) (omega arith)
