-- ===== src/Connection/Reachable.antt =====
-- What holds of every reachable registry.
use ara_notification_service.Common.{nat_key, str_key, Chrono}
use ara_notification_service.Connection.Types.{ConnectionLimits, ConnectionManager}
use ara_notification_service.Connection.Valid.{IsValid}
use ara_notification_service.Connection.Calls.{
  Call, registers, unregisters, subscribes, unsubscribes, touches, sweeps, step, Fresh, Reachable,
  start, next,
}
use ara_notification_service.Connection.Invariant.{
  with_limits-IsValid, register-IsValid, unregister-IsValid, subscribe_to_channel-IsValid,
  unsubscribe_from_channel-IsValid, touch-IsValid,
}
use ara_notification_service.Connection.Stale.{cleanup_stale_connections-IsValid}

step-IsValid :
    (c : Chrono) (m : ConnectionManager) (call : Call)
    → Fresh m call
    → IsValid m
    → IsValid (step c m call)
unfolding step
step-IsValid c m (registers now id u t r s) f v = register-IsValid c now id m u t r s v f
step-IsValid c m (unregisters id) f v = unregister-IsValid m id v
step-IsValid c m (subscribes id ch) f v = subscribe_to_channel-IsValid m id ch v
step-IsValid c m (unsubscribes id ch) f v = unsubscribe_from_channel-IsValid m id ch v
step-IsValid c m (touches now id) f v = touch-IsValid c now m id v
step-IsValid c m (sweeps now t) f v = cleanup_stale_connections-IsValid c now t m v

-- Whatever clients ask, in whatever order, the registry and its indexes agree.
pub Reachable-IsValid :
    (c : Chrono) (limits : ConnectionLimits) {m : ConnectionManager}
    → Reachable c limits m
    → IsValid m
Reachable-IsValid c limits start = with_limits-IsValid limits
Reachable-IsValid c limits (next {m} call f r) =
    step-IsValid c m call f (Reachable-IsValid c limits r)
