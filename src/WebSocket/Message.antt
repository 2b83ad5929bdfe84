-- ===== src/WebSocket/Message.antt =====
-- The messages of src/domain/realtime/websocket/message.rs.
use ara_notification_service.Common.{ℕ, Option, List, Str, Result, ok, err}
use ara_notification_service.Notification.Types.{NotificationEvent}

pub data ClientMessage : Type 0 where
  subscribe : List Str → ClientMessage
  unsubscribe : List Str → ClientMessage
  ping : ClientMessage
  ack : ℕ → ClientMessage

pub data ServerMessage : Type 0 where
  notification : NotificationEvent → ServerMessage
  subscribed : List Str → ServerMessage
  unsubscribed : List Str → ServerMessage
  pong : ServerMessage
  heartbeat : ServerMessage
  acked : ℕ → ServerMessage
  error : Str → Str → ServerMessage
  shutdown : Str → Option ℕ → ServerMessage

pub data OutboundMessage : Type 0 where
  raw : ServerMessage → OutboundMessage
  serialized : Str → OutboundMessage

-- `serde_json::to_string` is a parameter.
module _ {E : Type 0} (json_text : ServerMessage → Result Str E) where
  abbrev serialize : Result Str E → Result OutboundMessage E
  serialize (ok json) = ok (serialized json)
  serialize (err e) = err e

  unfoldable pub preserialized : ServerMessage → Result OutboundMessage E
  preserialized message = serialize (json_text message)

  unfoldable pub to_json : OutboundMessage → Result Str E
  to_json (raw message) = json_text message
  to_json (serialized json) = ok json
