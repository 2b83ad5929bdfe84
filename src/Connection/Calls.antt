-- ===== src/Connection/Calls.antt =====
-- The registry as a transition system: what its clients ask of it, in any order.
use ara_notification_service.Common.{ℕ, ◌≡◌, none, List, Str, nat_key, get, Chrono}
use ara_notification_service.Connection.Types.{ConnectionLimits, ConnectionManager}
use ara_notification_service.Connection.Manager.{
  with_limits, register, unregister, subscribe_to_channel, unsubscribe_from_channel, touch,
}
use ara_notification_service.Connection.Queries.{cleanup_stale_connections}

pub data Call : Type 0 where
  registers : ℕ → ℕ → Str → Str → List Str → ℕ → Call
  unregisters : ℕ → Call
  subscribes : ℕ → Str → Call
  unsubscribes : ℕ → Str → Call
  touches : ℕ → ℕ → Call
  sweeps : ℕ → ℕ → Call

unfoldable pub step : Chrono → ConnectionManager → Call → ConnectionManager
step c m (registers now id user_id tenant_id roles sender) =
    (register c now id m user_id tenant_id roles sender).0
step c m (unregisters id) = unregister m id
step c m (subscribes id channel) = (subscribe_to_channel m id channel).0
step c m (unsubscribes id channel) = unsubscribe_from_channel m id channel
step c m (touches now id) = touch c now m id
step c m (sweeps now timeout_secs) = (cleanup_stale_connections c now m timeout_secs).0

-- `Uuid::new_v4` draws an identifier that no connection has.
abbrev pub Fresh : ConnectionManager → Call → Type 0
Fresh m (registers now id user_id tenant_id roles sender) = get id m.connections ≡ none
Fresh m _ = Unit

pub data Reachable (c : Chrono) (limits : ConnectionLimits) : ConnectionManager → Type 0 where
  start : Reachable c limits (with_limits limits)
  next :
      {m : ConnectionManager} (call : Call)
      → Fresh m call
      → Reachable c limits m
      → Reachable c limits (step c m call)
