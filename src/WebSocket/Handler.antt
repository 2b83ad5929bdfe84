-- ===== src/WebSocket/Handler.antt =====
-- What a message of a client does: `process_message` and the functions that it calls, of
-- src/domain/realtime/websocket/handler.rs, over the registry, the tenants and the backends in memory.
use ara_notification_service.Common.{
  ℕ, Bool, true, false, if◌then◌else◌, none, some, List, [], ◌∷◌, ◌++◌, is_empty, Str, nat_key, get,
  Result, ok, err, Chrono, codes, to_string, join_with,
}
use ara_notification_service.Connection.Types.{
  ConnectionHandle, ConnectionManager, SubscribeError, subscription_limit_exceeded,
  connection_not_found,
}
use ara_notification_service.Connection.Manager.{
  subscribe_to_channel, unsubscribe_from_channel, touch,
}
use ara_notification_service.Tenant.Context.{TenantContext, namespace_channel}
use ara_notification_service.Tenant.Manager.{TenantManager, create_context}
use ara_notification_service.Queue.MemoryBackend.{MemoryQueueBackend}
use ara_notification_service.Ack.Memory.{MemoryAckBackend, acknowledge}
use ara_notification_service.WebSocket.Message.{
  ClientMessage, subscribe, unsubscribe, ping, ack, ServerMessage, subscribed, unsubscribed, pong,
  acked, error,
}
use ara_notification_service.WebSocket.Names.{is_valid_channel_name}

-- What the handlers meet outside the repository: the clock, the parser of the crate serde_json with
-- its error texts, the text of a Uuid, and the tables of Unicode.
pub record Outside : Type 0 where
  pub chrono : Chrono
  pub parse : Str → Result ClientMessage Str
  pub uuid_text : ℕ → Str
  pub unicode_alphanumeric : ℕ → Bool

-- The parts of the state of the server that the handlers use. Of the session store, whose Redis
-- version runs outside, they see whether it is enabled and the name of this server.
pub record AppState : Type 0 where
  pub connection_manager : ConnectionManager
  pub tenant_manager : TenantManager
  pub queue_backend : MemoryQueueBackend
  pub ack_backend : MemoryAckBackend
  pub session_store_enabled : Bool
  pub server_id : Str

pub record SessionInfo : Type 0 where
  pub connection_id : ℕ
  pub user_id : Str
  pub tenant_id : Str
  pub server_id : Str
  pub connected_at : ℕ
  pub channels : List Str

-- What a handler does besides changing the state: it sends to its connection, and it calls the session
-- store, whose errors it only logs.
pub data Effect : Type 0 where
  sends : ServerMessage → Effect
  registers_session : SessionInfo → Effect
  updates_channels : ℕ → List Str → Effect
  unregisters_session : ℕ → Effect

abbrev pub registry : AppState → ConnectionManager → AppState
registry s m = record s { connection_manager = m }

-- The text of a refused subscription.
unfoldable pub error_text : SubscribeError → Str
unfolding to_string
error_text (subscription_limit_exceeded current most) =
    codes "Subscription limit exceeded ("
    ++ to_string current
    ++ codes "/"
    ++ to_string most
    ++ codes ")"
error_text connection_not_found = codes "Connection not found"

-- `handle.subscriptions`: those in the registry, or those last seen if the connection has left it.
abbrev pub current_channels : ConnectionManager → ConnectionHandle → List Str
current_channels m handle = elim (get handle.id m.connections) [
  | none ↦ handle.subscriptions
  | some h ↦ h.subscriptions
]

abbrev update_session : AppState → ConnectionManager → ConnectionHandle → List Effect
update_session s m handle =
    if s.session_store_enabled
    then updates_channels handle.id (current_channels m handle) ∷ []
    else []

-- The registry, and the names subscribed and the error texts so far.
pub record Subscribing : Type 0 where
  pub manager : ConnectionManager
  pub done : List Str
  pub errors : List Str

abbrev pub outcome : Result (Unit {0}) SubscribeError → Str → Subscribing → Subscribing
outcome (ok _) ch a = record a { done = a.done ++ ch ∷ [] }
outcome (err e) ch a = record a { errors = a.errors ++ error_text e ∷ [] }

abbrev pub confirmation : AppState → ConnectionHandle → List Str → List Effect
confirmation s handle done =
    if is_empty done
    then []
    else sends (subscribed done) ∷ update_session s s.connection_manager handle

abbrev pub complaint : List Str → List Effect
complaint errors =
    if is_empty errors
    then []
    else sends (error (codes "SUBSCRIPTION_ERROR") (join_with (codes "; ") errors)) ∷ []

module _ (w : Outside) where
  -- One round of the loop of `handle_subscribe`.
  unfoldable pub subscribe_one : TenantContext → ℕ → Str → Subscribing → Subscribing
  unfolding is_valid_channel_name namespace_channel subscribe_to_channel error_text
  subscribe_one t id ch a =
      let (m, result) = subscribe_to_channel a.manager id (namespace_channel t ch) in
      if is_valid_channel_name w.unicode_alphanumeric ch
      then record (outcome result ch a) { manager = m }
      else record a { errors = a.errors ++ (codes "Invalid channel name: " ++ ch) ∷ [] }

  unfoldable pub subscribe_loop : TenantContext → ℕ → List Str → Subscribing → Subscribing
  unfolding subscribe_one
  subscribe_loop t id [] a = a
  subscribe_loop t id (ch ∷ chs) a = subscribe_loop t id chs (subscribe_one t id ch a)

  unfoldable pub handle_subscribe : List Str → AppState → ConnectionHandle → AppState × List Effect
  unfolding create_context subscribe_loop
  handle_subscribe channels s handle =
      let t = create_context s.tenant_manager handle.tenant_id in
      let start : Subscribing = record { manager = s.connection_manager; done = []; errors = [] } in
      let out = subscribe_loop t handle.id channels start in
      let s' = registry s out.manager in
      (s', confirmation s' handle out.done ++ complaint out.errors)

  unfoldable pub unsubscribe_loop :
      TenantContext → ℕ → List Str → ConnectionManager → ConnectionManager
  unfolding namespace_channel unsubscribe_from_channel
  unsubscribe_loop t id [] m = m
  unsubscribe_loop t id (ch ∷ chs) m =
      unsubscribe_loop t id chs (unsubscribe_from_channel m id (namespace_channel t ch))

  unfoldable pub handle_unsubscribe :
      List Str → AppState → ConnectionHandle → AppState × List Effect
  unfolding create_context unsubscribe_loop
  handle_unsubscribe channels s handle =
      let t = create_context s.tenant_manager handle.tenant_id in
      let m = unsubscribe_loop t handle.id channels s.connection_manager in
      (
        registry s m,
        if is_empty channels then [] else sends (unsubscribed channels) ∷ update_session s m handle,
      )

  unfoldable pub handle_ack : ℕ → ℕ → AppState → ConnectionHandle → AppState × List Effect
  unfolding acknowledge
  handle_ack now notification_id s handle =
      let (b, acknowledged) =
        acknowledge w.chrono now s.ack_backend notification_id handle.user_id in
      let confirmed = sends (acked notification_id) ∷ [] in
      let unknown =
        sends (
          error (codes "INVALID_ACK")
            (codes "Unknown or invalid notification: " ++ w.uuid_text notification_id))
        ∷ [] in
      if s.ack_backend.config.enabled
      then (record s { ack_backend = b }, if acknowledged then confirmed else unknown)
      else (s, [])

  unfoldable pub handle_client_message :
      ℕ → ClientMessage → AppState → ConnectionHandle → AppState × List Effect
  unfolding handle_subscribe handle_unsubscribe handle_ack
  handle_client_message now (subscribe channels) s handle = handle_subscribe channels s handle
  handle_client_message now (unsubscribe channels) s handle = handle_unsubscribe channels s handle
  handle_client_message now ping s handle = (s, sends pong ∷ [])
  handle_client_message now (ack notification_id) s handle = handle_ack now notification_id s handle

  -- `handle.update_activity()`.
  abbrev pub active : ℕ → AppState → ConnectionHandle → AppState
  active now s handle = registry s (touch w.chrono now s.connection_manager handle.id)

  abbrev pub parsed :
      ℕ → Result ClientMessage Str → AppState → ConnectionHandle → AppState × List Effect
  parsed now (ok msg) s handle = handle_client_message now msg s handle
  parsed now (err e) s handle = (s, sends (error (codes "INVALID_MESSAGE") e) ∷ [])

-- A frame of the crate axum.
pub data Message : Type 0 where
  text binary ping_frame pong_frame : Str → Message
  close : Message

-- With the time, and whether the connection stays open.
unfoldable pub process_message :
    Outside → ℕ → Message → AppState → ConnectionHandle → AppState × List Effect × Bool
unfolding touch handle_client_message
process_message w now (text t) s handle =
    let (s', effects) = parsed w now (w.parse t) (active w now s handle) handle in
    (s', effects, true)
process_message w now (binary _) s handle = (
  s,
  sends (error (codes "UNSUPPORTED_FORMAT") (codes "Binary messages are not supported")) ∷ [],
  true,
)
process_message w now (ping_frame _) s handle = (active w now s handle, [], true)
process_message w now (pong_frame _) s handle = (active w now s handle, [], true)
process_message w now close s handle = (s, [], false)
