-- ===== src/Queue/Models.antt =====
-- The data of src/domain/queue/models.rs and of src/domain/queue/backend.rs.
use ara_notification_service.Common.{
  ℕ, Bool, false, Option, none, List, [], Str, Chrono, as_i64, leb_ℤ,
}
use ara_notification_service.Notification.Types.{NotificationEvent}

pub record QueueConfig : Type 0 where
  pub enabled : Bool
  pub max_queue_size_per_user : ℕ
  pub message_ttl_seconds : ℕ
  pub cleanup_interval_seconds : ℕ

abbrev pub default_config : QueueConfig
default_config = record {
  enabled = false;
  max_queue_size_per_user = 100;
  message_ttl_seconds = 3600;
  cleanup_interval_seconds = 300;
}

-- `age.num_seconds() >= ttl_seconds as i64`.
abbrev pub outlived : Chrono → ℕ → ℕ → ℕ → Bool
outlived c now queued_at ttl_seconds =
    leb_ℤ (as_i64 ttl_seconds) (c.num_seconds_since now queued_at)

pub record QueuedMessage : Type 0 where
  pub id : ℕ
  pub event : NotificationEvent
  pub queued_at : ℕ
  pub attempts : ℕ

unfoldable pub new_queued : ℕ → ℕ → NotificationEvent → QueuedMessage
new_queued id now event = record { id = id; event = event; queued_at = now; attempts = 0 }

unfoldable pub queued_is_expired : Chrono → ℕ → QueuedMessage → ℕ → Bool
queued_is_expired c now x ttl_seconds = outlived c now x.queued_at ttl_seconds

pub record ReplayResult : Type 0 where
  pub replayed : ℕ
  pub failed : ℕ
  pub expired : ℕ

abbrev pub empty_replay : ReplayResult
empty_replay = record { replayed = 0; failed = 0; expired = 0 }

pub data QueueError : Type 0 where
  disabled : QueueError
  queue_full : Str → ℕ → QueueError

pub record QueueStats : Type 0 where
  pub enabled : Bool
  pub total_messages : ℕ
  pub users_with_queue : ℕ
  pub max_queue_size : ℕ
  pub max_queue_size_config : ℕ
  pub message_ttl_seconds : ℕ

pub record StoredMessage : Type 0 where
  pub id : ℕ
  pub event : NotificationEvent
  pub queued_at : ℕ
  pub attempts : ℕ
  pub stream_id : Option Str

unfoldable pub new_stored : ℕ → ℕ → NotificationEvent → StoredMessage
new_stored id now event = record {
  id = id;
  event = event;
  queued_at = now;
  attempts = 0;
  stream_id = none;
}

unfoldable pub stored_is_expired : Chrono → ℕ → StoredMessage → ℕ → Bool
stored_is_expired c now x ttl_seconds = outlived c now x.queued_at ttl_seconds

-- The errors of a backend; the errors of Redis, PostgreSQL and JSON that it wraps are left out, since
-- the backend in memory returns none of them.
pub data QueueBackendError : Type 0 where
  backend_disabled : QueueBackendError
  backend_queue_full : Str → ℕ → QueueBackendError
  unavailable : Str → QueueBackendError

pub record DrainResult : Type 0 where
  pub messages : List StoredMessage
  pub expired : ℕ

abbrev pub empty_drain : DrainResult
empty_drain = record { messages = []; expired = 0 }

pub record QueueBackendStats : Type 0 where
  pub backend_type : Str
  pub enabled : Bool
  pub total_messages : ℕ
  pub users_with_queue : ℕ
  pub max_queue_size : ℕ
  pub max_queue_size_config : ℕ
  pub message_ttl_seconds : ℕ
