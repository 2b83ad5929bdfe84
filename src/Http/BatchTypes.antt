-- ===== src/Http/BatchTypes.antt =====
-- The data of src/domain/notification/triggers/http/batch.rs.
use ara_notification_service.Common.{
  ℕ, Bool, Option, List, ◌++◌, map, Str, str_key, codes, join_with, sort,
}
use ara_notification_service.Notification.Types.{NotificationTarget}
use ara_notification_service.Notification.Types
use ara_notification_service.Tenant.Context.{TenantContext, namespace_channel}
use ara_notification_service.Dispatcher.Model.{Dispatcher}
use ara_notification_service.Http.Handlers.{SendSettings, namespaced}

abbrev pub max_batch_size : ℕ
max_batch_size = 100

pub data BatchTarget : Type 0 where
  user : Str → BatchTarget
  users : List Str → BatchTarget
  broadcast : BatchTarget
  channel : Str → BatchTarget
  channels : List Str → BatchTarget

unfoldable pub into_notification_target : BatchTarget → Option TenantContext → NotificationTarget
unfolding namespace_channel
into_notification_target (user id) t = Types.user id
into_notification_target (users ids) t = Types.user_list ids
into_notification_target broadcast t = Types.broadcast
into_notification_target (channel name) t = Types.channel (namespaced t name)
into_notification_target (channels names) t = Types.channel_list (map (namespaced t) names)

unfoldable pub dedup_key : BatchTarget → Str
unfolding sort
dedup_key (user id) = codes "user:" ++ id
dedup_key (users ids) = codes "users:" ++ join_with (codes ",") (sort ids)
dedup_key broadcast = codes "broadcast"
dedup_key (channel name) = codes "channel:" ++ name
dedup_key (channels names) = codes "channels:" ++ join_with (codes ",") (sort names)

pub record BatchNotificationItem : Type 0 where
  pub target : BatchTarget
  pub settings : SendSettings

pub record BatchOptions : Type 0 where
  pub stop_on_error : Bool
  pub deduplicate : Bool

pub record BatchSendRequest : Type 0 where
  pub notifications : List BatchNotificationItem
  pub options : BatchOptions

pub record BatchItemResult : Type 0 where
  pub index : ℕ
  pub notification_id : ℕ
  pub delivered_to : ℕ
  pub failed : ℕ
  pub success : Bool
  pub error : Option Str
  pub skipped : Option Bool

pub record BatchSummary : Type 0 where
  pub total : ℕ
  pub succeeded : ℕ
  pub failed : ℕ
  pub skipped : ℕ
  pub total_delivered : ℕ

pub record BatchSendResponse : Type 0 where
  pub batch_id : ℕ
  pub results : List BatchItemResult
  pub summary : BatchSummary
  pub timestamp : ℕ

-- The variables of the loop.
pub record Progress : Type 0 where
  pub dispatcher : Dispatcher
  pub results : List BatchItemResult
  pub succeeded : ℕ
  pub failed : ℕ
  pub skipped : ℕ
  pub total_delivered : ℕ
  pub seen_keys : List Str
