-- ===== src/WebSocket/Session.antt =====
-- The life of a connection: `extract_token`, `ws_handler` and `handle_socket` of
-- src/domain/realtime/websocket/handler.rs, and how src/domain/realtime/sse/handler.rs opens one.
use ara_notification_service.Common.{
  ℕ, if◌then◌else◌, ltb, Option, none, some, List, [], ◌∷◌, ◌++◌, length, is_empty, Str, Result, ok,
  err, ℤ, codes, to_string,
}
use ara_notification_service.Connection.Types.{
  ConnectionHandle, ConnectionError, total_limit_exceeded, user_limit_exceeded,
}
use ara_notification_service.Connection.Manager.{register, unregister}
use ara_notification_service.Tenant.Context.{default_tenant_id, tenant_scoped_key, strip_prefix}
use ara_notification_service.Queue.Models.{StoredMessage, QueueBackendError, DrainResult}
use ara_notification_service.Queue.MemoryBackend.{drain}
use ara_notification_service.WebSocket.Message.{ServerMessage, notification, error}
use ara_notification_service.WebSocket.Handler.{
  Outside, AppState, SessionInfo, Effect, sends, registers_session, unregisters_session, registry,
  Message, process_message,
}

-- The claims of a token; those that the service only carries along are left out.
pub record Claims : Type 0 where
  pub sub : Str
  pub exp : ℤ
  pub iat : ℤ
  pub roles : List Str
  pub tenant : Option Str

abbrev pub tenant_or_default : Option Str → Str
tenant_or_default none = default_tenant_id
tenant_or_default (some t) = t

unfoldable pub tenant_id : Claims → Str
tenant_id c = tenant_or_default c.tenant

-- The token of the query, or else that of the header, given as the text that the header's value
-- converts to, if it is there and converts.
unfoldable pub extract_token : Option Str → Option Str → Option Str
unfolding strip_prefix
extract_token (some token) authorization = some token
extract_token none none = none
extract_token none (some auth_str) = strip_prefix (codes "Bearer ") auth_str

-- An upgrade goes on with the claims of the token, or answers 401 with a text. The validator of tokens
-- rests on the crate jsonwebtoken, and is a parameter.
unfoldable pub ws_handler :
    {E : Type 0} → (Str → Result Claims E) → Option Str → Option Str → Result Claims Str
unfolding extract_token
ws_handler validate token authorization = elim (extract_token token authorization) [
  | none ↦ err (codes "Missing authentication token")
  | some t ↦ elim (validate t) [ ok claims ↦ ok claims | err e ↦ err (codes "Invalid token") ]
]

-- The buffer of the channel to a connection.
abbrev pub channel_buffer_size : ℕ
channel_buffer_size = 32

-- The loop that replays the drained messages. Nothing takes a message out of the channel before the
-- loop has ended, so that a message waits when the buffer is full: what is in the buffer, and the
-- messages from the first that waits.
unfoldable pub fill_buffer :
    List StoredMessage → List ServerMessage → List ServerMessage × List StoredMessage
fill_buffer [] buffer = (buffer, [])
fill_buffer (x ∷ xs) buffer =
    let rest = fill_buffer xs (buffer ++ notification x.event ∷ []) in
    if ltb (length buffer) channel_buffer_size then rest else (buffer, x ∷ xs)

abbrev pub replay_drained :
    Result DrainResult QueueBackendError
    → List ServerMessage
    → List ServerMessage × List StoredMessage
replay_drained (ok r) buffer = fill_buffer r.messages buffer
replay_drained (err e) buffer = (buffer, [])

-- How the opening of a connection ends: refused, or registered, with the messages in its channel and
-- those that still wait for a place in it.
pub data Opening : Type 0 where
  refused : ConnectionError → Opening
  opened : ConnectionHandle → List ServerMessage → List StoredMessage → Opening

abbrev pub session_info : ℕ → Str → ConnectionHandle → SessionInfo
session_info now server_id h = record {
  connection_id = h.id;
  user_id = h.user_id;
  tenant_id = h.tenant_id;
  server_id = server_id;
  connected_at = now;
  channels = [];
}

unfoldable pub connection_error_text : ConnectionError → Str
unfolding to_string
connection_error_text (total_limit_exceeded current most) =
    codes "Total connection limit exceeded ("
    ++ to_string current
    ++ codes "/"
    ++ to_string most
    ++ codes ")"
connection_error_text (user_limit_exceeded user_id current most) =
    codes "User "
    ++ user_id
    ++ codes " connection limit exceeded ("
    ++ to_string current
    ++ codes "/"
    ++ to_string most
    ++ codes ")"

-- The replay, where the queue is enabled. `others` is what other tasks have sent to the connection
-- since it was registered.
unfoldable pub replay_queue :
    Outside
    → (StoredMessage → ℕ)
    → AppState
    → ConnectionHandle
    → List ServerMessage
    → AppState × Opening
unfolding drain fill_buffer tenant_scoped_key
replay_queue w clock s h others =
    let (q, drained) =
      drain w.chrono clock s.queue_backend (tenant_scoped_key h.tenant_id h.user_id) in
    let (buffer, waiting) = replay_drained drained others in
    if s.queue_backend.config.enabled
    then (record s { queue_backend = q }, opened h buffer waiting)
    else (s, opened h others [])

-- What follows the registration.
unfoldable pub opening :
    Outside
    → ℕ
    → (StoredMessage → ℕ)
    → List ServerMessage
    → AppState
    → Result ConnectionHandle ConnectionError
    → AppState × List Effect × Opening
unfolding connection_error_text replay_queue
opening w now clock others s (err e) =
    (s, sends (error (codes "CONNECTION_LIMIT") (connection_error_text e)) ∷ [], refused e)
opening w now clock others s (ok h) =
    let (s', end) = replay_queue w clock s h others in
    (
      s',
      if s.session_store_enabled
          then registers_session (session_info now s.server_id h) ∷ []
          else [],
      end,
    )

-- The part of `handle_socket` before the socket is split, at time `now`, with the identifier that
-- `Uuid::new_v4` drew, the connection's channel and the readings of the clock during the drain.
unfoldable pub open_socket :
    Outside
    → ℕ
    → (StoredMessage → ℕ)
    → ℕ
    → ℕ
    → Claims
    → List ServerMessage
    → AppState
    → AppState × List Effect × Opening
unfolding register tenant_id opening
open_socket w now clock id sender claims others s =
    let (m, result) =
      register w.chrono now id s.connection_manager claims.sub (tenant_id claims) claims.roles
        sender in
    opening w now clock others (registry s m) result

-- The receiving task: frames with the time at which each arrives, `none` for an error of the socket.
unfoldable pub receive :
    Outside → List (ℕ × Option Message) → AppState → ConnectionHandle → AppState × List Effect
unfolding process_message
receive w [] s handle = (s, [])
receive w ((now, none) ∷ frames) s handle = (s, [])
receive w ((now, some msg) ∷ frames) s handle =
    let (s', effects, stays) = process_message w now msg s handle in
    let (s'', more) = receive w frames s' handle in
    if stays then (s'', effects ++ more) else (s', effects)

-- The end of `handle_socket`.
unfoldable pub close_socket : AppState → ℕ → AppState × List Effect
unfolding unregister
close_socket s id = (
  registry s (unregister s.connection_manager id),
  if s.session_store_enabled then unregisters_session id ∷ [] else [],
)

-- What follows the opening: a handler whose replay waits goes no further.
unfoldable pub serve :
    Outside → List (ℕ × Option Message) → AppState × List Effect × Opening → AppState × List Effect
unfolding receive close_socket
serve w frames (s, effects, refused e) = (s, effects)
serve w frames (s, effects, opened h buffer waiting) =
    let (s', more) = receive w frames s h in
    let (s'', last) = close_socket s' h.id in
    if is_empty waiting then (s'', effects ++ more ++ last) else (s, effects)

-- `handle_socket`, for the frames that its client sends until the receiving task or the sending task
-- ends, while no other task runs.
unfoldable pub handle_socket :
    Outside
    → ℕ
    → (StoredMessage → ℕ)
    → ℕ
    → ℕ
    → Claims
    → List (ℕ × Option Message)
    → AppState
    → AppState × List Effect
unfolding open_socket serve
handle_socket w now clock id sender claims frames s =
    serve w frames (open_socket w now clock id sender claims [] s)
