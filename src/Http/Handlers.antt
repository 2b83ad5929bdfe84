-- ===== src/Http/Handlers.antt =====
-- The handlers of src/domain/notification/triggers/http/handlers.rs, with the requests of models.rs.
use ara_notification_service.Common.{
  ℕ, Bool, ltb, if◌then◌else◌, Option, none, some, List, map, length, Str, ◌++◌, Result, ok, err,
  codes, to_string,
}
use ara_notification_service.Notification.Types.{
  Priority, Audience, NotificationEvent, user, user_list, broadcast,
}
use ara_notification_service.Notification.Json.{Value}
use ara_notification_service.Tenant.Context.{TenantContext, namespace_channel}
use ara_notification_service.Dispatcher.Model.{World, Dispatcher, DeliveryResult}
use ara_notification_service.Dispatcher.Handlers.{
  dispatch_for_tenant, send_to_channel, send_to_channels,
}
use ara_notification_service.Template.Store.{TemplateStore}
use ara_notification_service.Http.Errors.{AppError, validation}
use ara_notification_service.Http.Content.{NotificationContent, resolve_for_tenant, event_of}

-- The settings that all requests share.
pub record SendSettings : Type 0 where
  pub content : NotificationContent
  pub priority : Option Priority
  pub ttl : Option ℕ
  pub correlation_id : Option Str

pub record SendNotificationRequest : Type 0 where
  pub target_user_id : Str
  pub settings : SendSettings

pub record SendToUsersRequest : Type 0 where
  pub target_user_ids : List Str
  pub settings : SendSettings

pub record BroadcastNotificationRequest : Type 0 where
  pub settings : SendSettings
  pub audience : Option Audience

pub record ChannelNotificationRequest : Type 0 where
  pub channel : Str
  pub settings : SendSettings

pub record MultiChannelNotificationRequest : Type 0 where
  pub channels : List Str
  pub settings : SendSettings

pub record SendNotificationResponse : Type 0 where
  pub success : Bool
  pub notification_id : ℕ
  pub delivered_to : ℕ
  pub failed : ℕ
  pub timestamp : ℕ

-- The parts of the state of the server that the handlers use.
pub record AppState : Type 0 where
  pub dispatcher : Dispatcher
  pub template_store : TemplateStore

-- What a request meets outside: the JSON text of values, the identifier and the time of the event that
-- it builds, the world of its dispatch, and the time of its answer.
pub record Moment : Type 0 where
  pub json_text : Value → Str
  pub id : ℕ
  pub built_at : ℕ
  pub world : World
  pub answered_at : ℕ

abbrev pub max_target_users : ℕ
max_target_users = 10000

abbrev pub max_channels : ℕ
max_channels = 100

-- `tenant_ctx.map(|t| t.tenant_id())`.
abbrev pub tenant_of : Option TenantContext → Option Str
tenant_of none = none
tenant_of (some t) = some t.tenant_id

abbrev pub namespaced : Option TenantContext → Str → Str
namespaced none channel = channel
namespaced (some t) channel = namespace_channel t channel

abbrev pub response : ℕ → DeliveryResult → SendNotificationResponse
response now r = record {
  success = r.success;
  notification_id = r.notification_id;
  delivered_to = r.delivered_to;
  failed = r.failed;
  timestamp = now;
}

abbrev pub answered :
    Moment
    → AppState
    → Dispatcher × DeliveryResult
    → AppState × Result SendNotificationResponse AppError
answered at s (d, r) = (record s { dispatcher = d }, ok (response at.answered_at r))

-- What every handler does: resolve the content, build the event, and send it.
unfoldable pub send_resolved :
    Moment
    → AppState
    → Option TenantContext
    → SendSettings
    → Option Audience
    → (NotificationEvent → Dispatcher × DeliveryResult)
    → AppState × Result SendNotificationResponse AppError
unfolding resolve_for_tenant event_of
send_resolved at s t q audience send =
    elim (resolve_for_tenant at.json_text q.content s.template_store (tenant_of t) q.priority
      q.ttl) [
        | err e ↦ (s, err e)
        | ok r ↦ answered at s (send (event_of at.id at.built_at r audience q.correlation_id))
      ]

unfoldable pub send_notification :
    Moment
    → AppState
    → Option TenantContext
    → SendNotificationRequest
    → AppState × Result SendNotificationResponse AppError
unfolding send_resolved dispatch_for_tenant
send_notification at s t q =
    send_resolved at s t q.settings none
      λ event. dispatch_for_tenant at.world s.dispatcher (user q.target_user_id) event (tenant_of t)

abbrev pub too_many : Str → ℕ → ℕ → AppError
too_many what most got = validation (
    what
    ++ codes " exceeds maximum of "
    ++ to_string most
    ++ codes " (got "
    ++ to_string got
    ++ codes ")")

unfoldable pub send_to_users :
    Moment
    → AppState
    → Option TenantContext
    → SendToUsersRequest
    → AppState × Result SendNotificationResponse AppError
unfolding send_resolved dispatch_for_tenant
send_to_users at s t q =
    let n = length q.target_user_ids in
    if ltb max_target_users n
    then (s, err (too_many (codes "target_user_ids") max_target_users n))
    else send_resolved at s t q.settings none λ event.
      dispatch_for_tenant at.world s.dispatcher (user_list q.target_user_ids) event (tenant_of t)

unfoldable pub broadcast_notification :
    Moment
    → AppState
    → Option TenantContext
    → BroadcastNotificationRequest
    → AppState × Result SendNotificationResponse AppError
unfolding send_resolved dispatch_for_tenant
broadcast_notification at s t q =
    send_resolved at s t q.settings q.audience
      λ event. dispatch_for_tenant at.world s.dispatcher broadcast event (tenant_of t)

unfoldable pub channel_notification :
    Moment
    → AppState
    → Option TenantContext
    → ChannelNotificationRequest
    → AppState × Result SendNotificationResponse AppError
unfolding send_resolved send_to_channel namespace_channel
channel_notification at s t q =
    send_resolved at s t q.settings none
      λ event. send_to_channel at.world s.dispatcher (namespaced t q.channel) event

unfoldable pub multi_channel_notification :
    Moment
    → AppState
    → Option TenantContext
    → MultiChannelNotificationRequest
    → AppState × Result SendNotificationResponse AppError
unfolding send_resolved send_to_channels namespace_channel
multi_channel_notification at s t q =
    let n = length q.channels in
    if ltb max_channels n
    then (s, err (too_many (codes "channels") max_channels n))
    else send_resolved at s t q.settings none
        λ event. send_to_channels at.world s.dispatcher (map (namespaced t) q.channels) event
