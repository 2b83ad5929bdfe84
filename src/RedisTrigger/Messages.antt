-- ===== src/RedisTrigger/Messages.antt =====
-- The messages that come over Redis, and what each does: `parse_target` and `handle_message`.
use ara_notification_service.Common.{
  ℕ, if◌then◌else◌, Option, none, some, List, [], ◌∷◌, map, Str, str_key, ◌==◌, ◌++◌, Result, ok,
  err, codes,
}
use ara_notification_service.Notification.Types.{
  Priority, NotificationEvent, NotificationTarget, user, user_list, broadcast, channel,
  channel_list, NotificationBuilder, builder, set_payload, set_priority, set_ttl,
  set_correlation_id, build,
}
use ara_notification_service.Notification.Json.{Value}
use ara_notification_service.Tenant.Context.{default_tenant_id, join}
use ara_notification_service.Dispatcher.Model.{World, Dispatcher}
use ara_notification_service.Dispatcher.Handlers.{dispatch_for_tenant}

pub data RedisTarget : Type 0 where
  single : Str → RedisTarget
  multiple : List Str → RedisTarget

pub record RedisEventData : Type 0 where
  pub event_type : Str
  pub payload : Value
  pub priority : Priority
  pub ttl : Option ℕ
  pub correlation_id : Option Str

pub record RedisNotificationMessage : Type 0 where
  pub target_type : Str
  pub target : Option RedisTarget
  pub event : RedisEventData
  pub tenant_id : Option Str

-- `RedisSubscriber::namespace_channel`, with the tenant first.
unfoldable pub tenant_channel : Option Str → Str → Str
tenant_channel none ch = ch
tenant_channel (some tid) ch = if tid == default_tenant_id then ch else join tid ch

-- The target of each type.
abbrev one_user : Option RedisTarget → Option NotificationTarget
one_user (some (single id)) = some (user id)
one_user (some (multiple ids)) = none
one_user none = none

abbrev some_users : Option RedisTarget → Option NotificationTarget
some_users (some (multiple ids)) = some (user_list ids)
some_users (some (single id)) = some (user_list (id ∷ []))
some_users none = none

abbrev one_channel : Option Str → Option RedisTarget → Option NotificationTarget
one_channel t (some (single ch)) = some (channel (tenant_channel t ch))
one_channel t (some (multiple chs)) = none
one_channel t none = none

abbrev some_channels : Option Str → Option RedisTarget → Option NotificationTarget
some_channels t (some (multiple chs)) = some (channel_list (map (tenant_channel t) chs))
some_channels t (some (single ch)) = some (channel_list (tenant_channel t ch ∷ []))
some_channels t none = none

unfoldable pub parse_target : RedisNotificationMessage → Option Str → Option NotificationTarget
unfolding tenant_channel
parse_target m tenant_id =
    if m.target_type == codes "user"
    then one_user m.target
    else if m.target_type == codes "users"
    then some_users m.target
    else if m.target_type == codes "broadcast"
    then some broadcast
    else if m.target_type == codes "channel"
    then one_channel tenant_id m.target
    else if m.target_type == codes "channels"
    then some_channels tenant_id m.target
    else none

abbrev with_ttl : Option ℕ → NotificationBuilder → NotificationBuilder
with_ttl none b = b
with_ttl (some ttl) b = set_ttl b ttl

abbrev with_correlation : Option Str → NotificationBuilder → NotificationBuilder
with_correlation none b = b
with_correlation (some id) b = set_correlation_id b id

-- With the identifier that `Uuid::new_v4` drew and the time.
unfoldable pub redis_event : ℕ → ℕ → Str → RedisEventData → NotificationEvent
unfolding builder set_payload set_priority set_ttl set_correlation_id build
redis_event id now ch e =
    let b =
      set_priority (set_payload (builder e.event_type (codes "redis:" ++ ch)) e.payload)
        e.priority in
    build id now (with_correlation e.correlation_id (with_ttl e.ttl b))

-- What the handling of a message meets outside: the identifier and time of its event, and the world of
-- its dispatch.
pub record Arrival : Type 0 where
  pub id : ℕ
  pub now : ℕ
  pub world : World

abbrev pub handle_parsed :
    Arrival → Str → Dispatcher → RedisNotificationMessage → Option NotificationTarget → Dispatcher
handle_parsed at ch d m none = d
handle_parsed at ch d m (some target) =
    (dispatch_for_tenant at.world d target (redis_event at.id at.now ch m.event) m.tenant_id).0

-- The parser (the crate serde_json) comes first.
unfoldable pub handle_message :
    {E : Type 0}
    → (Str → Result RedisNotificationMessage E)
    → Arrival
    → Str
    → Str
    → Dispatcher
    → Dispatcher
unfolding parse_target redis_event dispatch_for_tenant
handle_message parse at ch payload d = elim (parse payload) [
  | err e ↦ d
  | ok m ↦ handle_parsed at ch d m (parse_target m m.tenant_id)
]
