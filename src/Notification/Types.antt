-- ===== src/Notification/Types.antt =====
-- The data of src/domain/notification/types.rs.
use ara_notification_service.Common.{
  ℕ, Bool, true, false, Option, none, some, List, Str, str_key, contains, any, ltb, Chrono, pos,
}
use ara_notification_service.Notification.Json.{Value, null}

pub data Priority : Type 0 where
  low normal high critical : Priority

pub data Audience : Type 0 where
  all : Audience
  roles : List Str → Audience
  users : List Str → Audience
  channels : List Str → Audience

pub record NotificationMetadata : Type 0 where
  pub source : Str
  pub priority : Priority
  pub ttl : Option ℕ
  pub audience : Option Audience
  pub correlation_id : Option Str

pub record NotificationEvent : Type 0 where
  pub id : ℕ
  pub occurred_at : ℕ
  pub event_type : Str
  pub payload : Value
  pub metadata : NotificationMetadata

pub data NotificationTarget : Type 0 where
  user : Str → NotificationTarget
  user_list : List Str → NotificationTarget
  broadcast : NotificationTarget
  channel : Str → NotificationTarget
  channel_list : List Str → NotificationTarget

pub record NotificationBuilder : Type 0 where
  pub event_type : Str
  pub payload : Value
  pub source : Str
  pub priority : Priority
  pub ttl : Option ℕ
  pub audience : Option Audience
  pub correlation_id : Option Str

-- `NotificationBuilder::new`, the setters and `build`, with the identifier that `Uuid::new_v4` drew
-- and the time.
unfoldable pub builder : Str → Str → NotificationBuilder
builder event_type source = record {
  event_type = event_type;
  payload = null;
  source = source;
  priority = normal;
  ttl = none;
  audience = none;
  correlation_id = none;
}

unfoldable pub set_payload : NotificationBuilder → Value → NotificationBuilder
set_payload b payload = record b { payload = payload }

unfoldable pub set_priority : NotificationBuilder → Priority → NotificationBuilder
set_priority b priority = record b { priority = priority }

unfoldable pub set_ttl : NotificationBuilder → ℕ → NotificationBuilder
set_ttl b ttl = record b { ttl = some ttl }

unfoldable pub set_audience : NotificationBuilder → Audience → NotificationBuilder
set_audience b audience = record b { audience = some audience }

unfoldable pub set_correlation_id : NotificationBuilder → Str → NotificationBuilder
set_correlation_id b id = record b { correlation_id = some id }

unfoldable pub build : ℕ → ℕ → NotificationBuilder → NotificationEvent
build id now b = record {
  id = id;
  occurred_at = now;
  event_type = b.event_type;
  payload = b.payload;
  metadata = record {
    source = b.source;
    priority = b.priority;
    ttl = b.ttl;
    audience = b.audience;
    correlation_id = b.correlation_id;
  };
}

unfoldable pub new_event : ℕ → ℕ → Str → Value → Str → NotificationEvent
unfolding builder set_payload build
new_event id now event_type payload source =
    build id now (set_payload (builder event_type source) payload)

abbrev pub expires : Chrono → ℕ → ℕ → Option ℕ → Bool
expires c now occurred_at none = false
expires c now occurred_at (some ttl) = ltb (c.add_seconds occurred_at (pos ttl)) now

unfoldable pub is_expired : Chrono → ℕ → NotificationEvent → Bool
is_expired c now e = expires c now e.occurred_at e.metadata.ttl

abbrev pub delivers_to : Option Audience → List Str → Bool
delivers_to none user_roles = true
delivers_to (some all) user_roles = true
delivers_to (some (roles required_roles)) user_roles =
    any (λ r. contains r user_roles) required_roles
delivers_to (some (users _)) user_roles = true
delivers_to (some (channels _)) user_roles = true

unfoldable pub should_deliver_to_roles : NotificationEvent → List Str → Bool
should_deliver_to_roles e user_roles = delivers_to e.metadata.audience user_roles
