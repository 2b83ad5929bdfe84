-- ===== src/RedisTrigger/Subscriber.antt =====
-- The loop of `RedisSubscriber`: connecting, receiving, and coming back after an error.
-- The health that the source records beside is left out.
use ara_notification_service.Common.{
  ℕ, Bool, true, false, if◌then◌else◌, Option, none, some, List, [], ◌∷◌, is_empty, Str, Result,
  codes,
}
use ara_notification_service.CircuitBreaker.Breaker.{
  CircuitState, closed, open_circuit, half_open, CircuitBreaker, state, record_success,
  record_failure,
}
use ara_notification_service.Dispatcher.Model.{Dispatcher}
use ara_notification_service.RedisTrigger.Messages.{
  RedisNotificationMessage, Arrival, handle_message,
}

unfoldable pub get_channels : List Str → List Str
get_channels channels =
    if is_empty channels
    then (codes "notification:user:*"
        ∷ codes "notification:broadcast"
        ∷ codes "notification:channel:*"
        ∷ [])
    else channels

-- What the inner loop waits for: the signal of a shutdown, a message with the time, its channel and
-- its payload if that can be read, or the end of the stream.
pub data StreamEvent : Type 0 where
  shuts_down : StreamEvent
  arrives : ℕ → Arrival → Str → Option Str → StreamEvent
  ends : StreamEvent

-- A connection to Redis: refused, or made at a time, with what its loop meets.
pub data Attempt : Type 0 where
  fails : Attempt
  connects : ℕ → List StreamEvent → Attempt

-- A round of the outer loop: the two readings of the clock by `state`, the attempt, the time of a
-- failure, and whether a shutdown comes while the loop backs off.
pub record Round : Type 0 where
  pub asked : ℕ
  pub later : ℕ
  pub attempt : Attempt
  pub failed_at : ℕ
  pub shutdown_in_backoff : Bool

-- `waits` where the loop is not through with what it has met.
pub data Status : Type 0 where
  waits stopped : Status

module _ {E : Type 0} (parse : Str → Result RedisNotificationMessage E) where
  -- `handle_message` on a payload that can be read.
  abbrev handle_payload : Arrival → Str → Option Str → Dispatcher → Dispatcher
  handle_payload at ch none d = d
  handle_payload at ch (some payload) d = handle_message parse at ch payload d

  unfoldable pub receive_loop :
      List StreamEvent → CircuitBreaker → Dispatcher → CircuitBreaker × Dispatcher × Status
  unfolding record_success handle_message
  receive_loop [] b d = (b, d, waits)
  receive_loop (shuts_down ∷ events) b d = (b, d, stopped)
  receive_loop (ends ∷ events) b d = (b, d, stopped)
  receive_loop (arrives now at ch payload ∷ events) b d =
      receive_loop events (record_success now b) (handle_payload at ch payload d)

  -- What the outer loop does after an attempt, and whether it goes on.
  unfoldable pub after_attempt :
      Round → Attempt → CircuitBreaker → Dispatcher → Bool × CircuitBreaker × Dispatcher × Status
  unfolding receive_loop record_failure
  after_attempt r fails b d =
      let b' = record_failure r.failed_at b in
      if r.shutdown_in_backoff then (false, b', d, stopped) else (true, b', d, waits)
  after_attempt r (connects now events) b d =
      let (b', d', status) = receive_loop events (record_success now b) d in (false, b', d', status)

  unfoldable pub round :
      Round
      → CircuitBreaker × CircuitState
      → Dispatcher
      → Bool × CircuitBreaker × Dispatcher × Status
  unfolding after_attempt
  round r (b, open_circuit) d = (true, b, d, waits)
  round r (b, closed) d = after_attempt r r.attempt b d
  round r (b, half_open) d = after_attempt r r.attempt b d

  unfoldable pub start_loop :
      List Round → CircuitBreaker → Dispatcher → CircuitBreaker × Dispatcher × Status
  unfolding state round
  start_loop [] b d = (b, d, waits)
  start_loop (r ∷ rs) b d =
      let (goes_on, b', d', status) = round r (state r.asked r.later b) d in
      let rest = start_loop rs b' d' in if goes_on then rest else (b', d', status)

  -- `start`, for the configured channels.
  unfoldable pub start :
      List Str → List Round → CircuitBreaker → Dispatcher → CircuitBreaker × Dispatcher × Status
  unfolding get_channels start_loop
  start channels rounds b d =
      if is_empty (get_channels channels) then (b, d, stopped) else start_loop rounds b d
