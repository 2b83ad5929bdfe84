-- ===== src/RedisTrigger/Tests.antt =====
-- Runs of the Redis trigger, and its theorem at a concrete input.
use ara_notification_service.Common.{
  ◌≡◌, refl, false, none, some, [], ◌∷◌, Str, str_key, nat_key, Str-discrete, ℕ_discrete, Result,
  err, codes,
}
use ara_notification_service.Fixtures.{acme, orders}
use ara_notification_service.Connection.Types.{default_limits}
use ara_notification_service.Connection.Manager.{with_limits}
use ara_notification_service.Notification.Types.{normal, channel}
use ara_notification_service.Notification.Json.{null}
use ara_notification_service.Queue.Models
use ara_notification_service.Queue.MemoryBackend
use ara_notification_service.Ack.Memory
use ara_notification_service.CircuitBreaker.Breaker.{CircuitBreaker, with_config, state}
use ara_notification_service.CircuitBreaker.Breaker
use ara_notification_service.Dispatcher.Model.{Dispatcher, with_backends}
use ara_notification_service.Tenant.Context.{namespace_channel}
use ara_notification_service.Tenant.Context
use ara_notification_service.RedisTrigger.Messages.{RedisNotificationMessage, single, parse_target}
use ara_notification_service.RedisTrigger.Subscriber.{
  fails, connects, ends, Round, waits, stopped, start,
}
use ara_notification_service.RedisTrigger.Laws.{start-waits}

abbrev parse : Str → Result RedisNotificationMessage Str
parse s = err s

abbrev dispatcher : Dispatcher
dispatcher =
    with_backends (with_limits default_limits) (MemoryBackend.new Models.default_config)
      (Memory.new Memory.default_config)

abbrev breaker : CircuitBreaker
breaker = with_config 0 Breaker.default_config

abbrev refused : Round
refused = record {
  asked = 1;
  later = 1;
  attempt = fails;
  failed_at = 1;
  shutdown_in_backoff = false;
}

abbrev message : RedisNotificationMessage
message = record {
  target_type = codes "channel";
  target = some (single orders);
  event = record {
    event_type = orders;
    payload = null;
    priority = normal;
    ttl = none;
    correlation_id = none;
  };
  tenant_id = some acme;
}

parsed :
    parse_target message (some acme) ≡ some (channel (namespace_channel (Context.new acme) orders))
unfolding parse_target Str-discrete ℕ_discrete namespace_channel Context.new
parsed = refl

start-waits_example : (start parse [] (refused ∷ refused ∷ []) breaker dispatcher).2 ≡ waits
start-waits_example = start-waits parse [] (refused ∷ refused ∷ []) breaker dispatcher refl

-- A stream that ends stops the subscriber for good: the rounds after it are not run.
ends_for_good :
    (start parse []
      (record refused { attempt = connects 1 (ends ∷ []) } ∷ refused ∷ [])
      breaker
      dispatcher).2
    ≡ stopped
unfolding start with_config
ends_for_good = refl
