-- ===== src/WebSocket/Valid.antt =====
-- The invariant of the registry through the openings, the messages and the closings of connections.
use mathlib.Core.Path.{subst}
use ara_notification_service.Common.{
  ℕ, ◌≡◌, sym, inl, inr, Bool-cases, none, List, [], ◌∷◌, Str, nat_key, get, Result, ok, err,
}
use ara_notification_service.Connection.Types.{ConnectionHandle, ConnectionManager}
use ara_notification_service.Connection.Valid.{IsValid}
use ara_notification_service.Connection.Invariant.{
  register-IsValid, subscribe_to_channel-IsValid, unsubscribe_from_channel-IsValid, touch-IsValid,
}
use ara_notification_service.Queue.Models.{StoredMessage}
use ara_notification_service.Tenant.Context.{TenantContext, namespace_channel}
use ara_notification_service.WebSocket.Message.{
  ClientMessage, ServerMessage, subscribe, unsubscribe, ping, ack,
}
use ara_notification_service.WebSocket.Names.{is_valid_channel_name}
use ara_notification_service.WebSocket.Handler.{
  Outside, AppState, Subscribing, subscribe_one, subscribe_loop, handle_subscribe, unsubscribe_loop,
  handle_unsubscribe, handle_ack, handle_client_message, parsed, active, Message, text, binary,
  ping_frame, pong_frame, close, process_message,
}
use ara_notification_service.WebSocket.Session.{Claims, tenant_id, open_socket}
use ara_notification_service.WebSocket.Opening.{open_socket-registry}

module _ (w : Outside) where
  subscribe_loop-IsValid :
      (t : TenantContext) (id : ℕ) (channels : List Str) (a : Subscribing)
      → IsValid a.manager
      → IsValid (subscribe_loop w t id channels a).manager
  unfolding subscribe_loop subscribe_one
  subscribe_loop-IsValid t id [] a v = v
  subscribe_loop-IsValid t id (ch ∷ chs) a v =
      subscribe_loop-IsValid t id chs (subscribe_one w t id ch a)
        (elim (Bool-cases (is_valid_channel_name w.unicode_alphanumeric ch)) [
          | inl e ↦ rw e (subscribe_to_channel-IsValid a.manager id (namespace_channel t ch) v)
          | inr e ↦ rw e v
        ])

  unsubscribe_loop-IsValid :
      (t : TenantContext) (id : ℕ) (channels : List Str) (m : ConnectionManager)
      → IsValid m
      → IsValid (unsubscribe_loop w t id channels m)
  unfolding unsubscribe_loop
  unsubscribe_loop-IsValid t id [] m v = v
  unsubscribe_loop-IsValid t id (ch ∷ chs) m v =
      unsubscribe_loop-IsValid t id chs _
        (unsubscribe_from_channel-IsValid m id (namespace_channel t ch) v)

  parsed-IsValid :
      (now : ℕ) (r : Result ClientMessage Str) (s : AppState) (handle : ConnectionHandle)
      → IsValid s.connection_manager
      → IsValid (parsed w now r s handle).0.connection_manager
  unfolding handle_client_message handle_subscribe handle_unsubscribe handle_ack
  parsed-IsValid now (err e) s handle v = v
  parsed-IsValid now (ok ping) s handle v = v
  parsed-IsValid now (ok (ack n)) s handle v = elim (Bool-cases s.ack_backend.config.enabled) [
    | inl e ↦ rw e v
    | inr e ↦ rw e v
  ]
  parsed-IsValid now (ok (subscribe cs)) s handle v = subscribe_loop-IsValid _ handle.id cs _ v
  parsed-IsValid now (ok (unsubscribe cs)) s handle v = unsubscribe_loop-IsValid _ handle.id cs _ v

  pub process_message-IsValid :
      (now : ℕ) (msg : Message) (s : AppState) (handle : ConnectionHandle)
      → IsValid s.connection_manager
      → IsValid (process_message w now msg s handle).0.connection_manager
  unfolding process_message
  process_message-IsValid now (binary b) s handle v = v
  process_message-IsValid now close s handle v = v
  process_message-IsValid now (ping_frame b) s handle v =
      touch-IsValid w.chrono now s.connection_manager handle.id v
  process_message-IsValid now (pong_frame b) s handle v =
      touch-IsValid w.chrono now s.connection_manager handle.id v
  process_message-IsValid now (text b) s handle v =
      parsed-IsValid now (w.parse b) (active w now s handle) handle
        (touch-IsValid w.chrono now s.connection_manager handle.id v)

  pub open_socket-IsValid :
      (now : ℕ) (clock : StoredMessage → ℕ) (id sender : ℕ) (claims : Claims)
      (others : List ServerMessage) (s : AppState)
      → get id s.connection_manager.connections ≡ none
      → IsValid s.connection_manager
      → IsValid (open_socket w now clock id sender claims others s).0.connection_manager
  open_socket-IsValid now clock id sender claims others s fresh v =
      subst IsValid (sym (open_socket-registry w now clock id sender claims others s).0) (
        register-IsValid w.chrono now id s.connection_manager claims.sub (tenant_id claims)
          claims.roles sender v fresh)
