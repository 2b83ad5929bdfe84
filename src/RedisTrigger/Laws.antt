-- ===== src/RedisTrigger/Laws.antt =====
-- When the subscriber gives up, and what its channels are called.
use ara_notification_service.Common.{
  ◌≡◌, refl, arith, inl, inr, Bool, true, false, Bool-cases, ◌||◌, some, List, [], ◌∷◌, is_empty,
  any, Str, str_key, Result,
}
use ara_notification_service.Tenant.Context.{namespace_channel}
use ara_notification_service.Tenant.Context
use ara_notification_service.CircuitBreaker.Breaker.{
  CircuitBreaker, CircuitState, closed, open_circuit, half_open, state, record_success,
}
use ara_notification_service.Dispatcher.Model.{Dispatcher}
use ara_notification_service.RedisTrigger.Messages.{RedisNotificationMessage, tenant_channel}
use ara_notification_service.RedisTrigger.Subscriber.{
  StreamEvent, shuts_down, arrives, ends, Attempt, fails, connects, Round, waits, get_channels,
  receive_loop, after_attempt, round, start_loop, start,
}

-- The namespace of the trigger is that of the tenants.
pub tenant_channel-namespace_channel :
    (t ch : Str) → tenant_channel (some t) ch ≡ namespace_channel (Context.new t) ch
unfolding tenant_channel namespace_channel Context.new
tenant_channel-namespace_channel t ch = refl

abbrev pub last_event : StreamEvent → Bool
last_event shuts_down = true
last_event ends = true
last_event (arrives now at ch payload) = false

abbrev pub stops_in : Attempt → Bool
stops_in fails = false
stops_in (connects now events) = any last_event events

-- Does a shutdown or the end of a stream come in the round?
abbrev pub stops : Round → Bool
stops r = r.shutdown_in_backoff || stops_in r.attempt

module _ {E : Type 0} (parse : Str → Result RedisNotificationMessage E) where
  receive_loop-waits :
      (events : List StreamEvent) (b : CircuitBreaker) (d : Dispatcher)
      → any last_event events ≡ false
      → (receive_loop parse events b d).2 ≡ waits
  unfolding receive_loop
  receive_loop-waits [] b d h = refl
  receive_loop-waits (shuts_down ∷ events) b d h = absurd (ground arith)
  receive_loop-waits (ends ∷ events) b d h = absurd (ground arith)
  receive_loop-waits (arrives now at ch payload ∷ events) b d h =
      receive_loop-waits events (record_success now b) _ h

  after_attempt-waits :
      (r : Round) (a : Attempt) (b : CircuitBreaker) (d : Dispatcher)
      → r.shutdown_in_backoff ≡ false
      → stops_in a ≡ false
      → (after_attempt parse r a b d).3 ≡ waits
  unfolding after_attempt
  after_attempt-waits r fails b d h k = rw h refl
  after_attempt-waits r (connects now events) b d h k =
      receive_loop-waits events (record_success now b) d k

  round-waits :
      (r : Round) (s : CircuitBreaker × CircuitState) (d : Dispatcher)
      → stops r ≡ false
      → (round parse r s d).3 ≡ waits
  unfolding round
  round-waits r (b, open_circuit) d h = refl
  round-waits r (b, closed) d h = after_attempt-waits r r.attempt b d (ground arith) (ground arith)
  round-waits r (b, half_open) d h =
      after_attempt-waits r r.attempt b d (ground arith) (ground arith)

  start_loop-waits :
      (rounds : List Round) (b : CircuitBreaker) (d : Dispatcher)
      → any stops rounds ≡ false
      → (start_loop parse rounds b d).2 ≡ waits
  unfolding start_loop
  start_loop-waits [] b d h = refl
  start_loop-waits (r ∷ rounds) b d h =
      let s = state r.asked r.later b in
      elim (Bool-cases (round parse r s d).0) [
        | inl e ↦
            rw e
              (start_loop-waits rounds (round parse r s d).1 (round parse r s d).2 (ground arith))
        | inr e ↦ rw e (round-waits r s d (ground arith))
      ]

  get_channels-filled : (channels : List Str) → is_empty (get_channels channels) ≡ false
  unfolding get_channels
  get_channels-filled [] = refl
  get_channels-filled (c ∷ channels) = refl

  -- The subscriber never gives up by itself: whatever the configured channels, the failures to
  -- connect, the state of the breaker and the messages, it has not stopped as long as no shutdown is
  -- signalled and no stream ends.
  pub start-waits :
      (channels : List Str) (rounds : List Round) (b : CircuitBreaker) (d : Dispatcher)
      → any stops rounds ≡ false
      → (start parse channels rounds b d).2 ≡ waits
  unfolding start
  start-waits channels rounds b d h =
      rw (get_channels-filled channels) (start_loop-waits rounds b d h)
