-- ===== src/WebSocket/Opening.antt =====
-- What the opening of a connection changes of the state.
use ara_notification_service.Common.{ℕ, ◌≡◌, refl, arith, List, Result, ok, err}
use ara_notification_service.Connection.Types.{ConnectionHandle, ConnectionError}
use ara_notification_service.Connection.Manager.{register}
use ara_notification_service.Queue.Models.{StoredMessage}
use ara_notification_service.WebSocket.Message.{ServerMessage}
use ara_notification_service.WebSocket.Handler.{Outside, AppState, registry}
use ara_notification_service.WebSocket.Session.{
  Claims, tenant_id, replay_queue, opening, open_socket,
}

replay_queue-registry :
    (w : Outside) (clock : StoredMessage → ℕ) (s : AppState) (h : ConnectionHandle)
    (others : List ServerMessage)
    → let out = (replay_queue w clock s h others).0 in
      (out.connection_manager ≡ s.connection_manager) × (out.tenant_manager ≡ s.tenant_manager)
unfolding replay_queue
replay_queue-registry w clock s h others = ground arith

opening-registry :
    (w : Outside) (now : ℕ) (clock : StoredMessage → ℕ) (others : List ServerMessage) (s : AppState)
    (r : Result ConnectionHandle ConnectionError)
    → let out = (opening w now clock others s r).0 in
      (out.connection_manager ≡ s.connection_manager) × (out.tenant_manager ≡ s.tenant_manager)
unfolding opening
opening-registry w now clock others s (err e) = (refl, refl)
opening-registry w now clock others s (ok h) = replay_queue-registry w clock s h others

-- The registry after an opening is that after `register`, whether the connection is registered or
-- refused and whatever is replayed; the tenants are as they were.
pub open_socket-registry :
    (w : Outside) (now : ℕ) (clock : StoredMessage → ℕ) (id sender : ℕ) (claims : Claims)
    (others : List ServerMessage) (s : AppState)
    → let out = (open_socket w now clock id sender claims others s).0 in
      let registered =
        register w.chrono now id s.connection_manager claims.sub
          (tenant_id claims)
          claims.roles
          sender in
      (out.connection_manager ≡ registered.0) × (out.tenant_manager ≡ s.tenant_manager)
unfolding open_socket
open_socket-registry w now clock id sender claims others s =
    let (m, result) =
      register w.chrono now id s.connection_manager claims.sub (tenant_id claims) claims.roles
        sender in
    opening-registry w now clock others (registry s m) result
