-- ===== src/Cluster/Router.antt =====
-- `ClusterRouter` of src/domain/cluster/router.rs, and what its subscriber does with a message. Which
-- connections take a message is a parameter, like the parser and printer of JSON (serde_json).
use ara_notification_service.Common.{
  ℕ, Bool, true, not, if◌then◌else◌, Option, none, some, List, [], ◌∷◌, length, is_empty, retain,
  count, any, Str, str_key, ◌==◌, Result, ok, err,
}
use ara_notification_service.Connection.Types.{ConnectionHandle, ConnectionManager}
use ara_notification_service.Connection.Queries.{get_user_connections}
use ara_notification_service.WebSocket.Message.{ServerMessage}
use ara_notification_service.Cluster.Types.{
  RoutedMessage, SessionStore, SessionStoreError, serialization_error,
}

pub record ClusterRouter : Type 0 where
  pub connection_manager : ConnectionManager
  pub session_store : SessionStore

unfoldable pub is_user_local : ClusterRouter → Str → Str → Bool
unfolding get_user_connections
is_user_local r user_id tenant_id =
    any (λ c. c.tenant_id == tenant_id) (get_user_connections r.connection_manager user_id)

-- The connections of the user in the tenant.
unfoldable pub tenant_connections : ConnectionManager → Str → Str → List ConnectionHandle
unfolding get_user_connections retain
tenant_connections m user_id tenant_id =
    retain (λ c. c.tenant_id == tenant_id) (get_user_connections m user_id)

pub record RouteResult : Type 0 where
  pub local_delivered : ℕ
  pub routed_to_servers : ℕ

abbrev pub route_result : ℕ → ℕ → RouteResult
route_result delivered routed = record { local_delivered = delivered; routed_to_servers = routed }

abbrev pub routed : SessionStore → Str → Str → Str → Str → RoutedMessage
routed store user_id tenant_id payload target = record {
  user_id = user_id;
  tenant_id = tenant_id;
  connection_id = none;
  payload = payload;
  from_server = store.server_id;
  to_server = some target;
}

-- The messages for the other servers, in the order in which they are published. An error of publishing
-- is only logged.
unfoldable pub routed_messages : SessionStore → Str → Str → Str → List Str → List RoutedMessage
routed_messages store user_id tenant_id payload [] = []
routed_messages store user_id tenant_id payload (target ∷ targets) =
    routed store user_id tenant_id payload target
    ∷ routed_messages store user_id tenant_id payload targets

unfoldable pub other_servers : SessionStore → List Str → List Str
unfolding retain
other_servers store servers = retain (λ s. not (s == store.server_id)) servers

abbrev pub publish :
    SessionStore
    → Str
    → Str
    → ℕ
    → List Str
    → Result Str Str
    → List RoutedMessage × Result RouteResult SessionStoreError
publish store user_id tenant_id delivered others (ok payload) = (
  routed_messages store user_id tenant_id payload others,
  ok (route_result delivered (length others)),
)
publish store user_id tenant_id delivered others (err e) = ([], err (serialization_error e))

abbrev pub route_found :
    SessionStore
    → Str
    → Str
    → ℕ
    → Result Str Str
    → Result (List Str) SessionStoreError
    → List RoutedMessage × Result RouteResult SessionStoreError
route_found store user_id tenant_id delivered json (err e) = ([], ok (route_result delivered 0))
route_found store user_id tenant_id delivered json (ok servers) =
    let others = other_servers store servers in
    if is_empty others
    then ([], ok (route_result delivered 0))
    else publish store user_id tenant_id delivered others json

-- The connections to which the message is sent here, the messages published, and the result.
unfoldable pub route_to_user :
    (ServerMessage → Result Str Str)
    → (ConnectionHandle → Bool)
    → ClusterRouter
    → Str
    → Str
    → ServerMessage
    → List ConnectionHandle × List RoutedMessage × Result RouteResult SessionStoreError
unfolding tenant_connections routed_messages other_servers
route_to_user json_text takes r user_id tenant_id message =
    let store = r.session_store in
    let here = tenant_connections r.connection_manager user_id tenant_id in
    let delivered = count takes here in
    let (published, result) =
      route_found store user_id tenant_id delivered (json_text message)
        (store.find_user_servers user_id) in
    if store.is_enabled
    then (here, published, result)
    else (here, [], ok (route_result delivered 0))

-- Is the message for this server?
abbrev pub is_for : Str → Option Str → Bool
is_for server_id none = true
is_for server_id (some target) = target == server_id

abbrev pub deliver_parsed :
    (ConnectionHandle → Bool)
    → ClusterRouter
    → RoutedMessage
    → Result ServerMessage Str
    → List ConnectionHandle × ℕ
deliver_parsed takes r m (err e) = ([], 0)
deliver_parsed takes r m (ok message) =
    let here = tenant_connections r.connection_manager m.user_id m.tenant_id in
    (here, count takes here)

-- The connections to which the message is sent, and the number of those that take it.
unfoldable pub handle_routed_message :
    (Str → Result ServerMessage Str)
    → (ConnectionHandle → Bool)
    → ClusterRouter
    → RoutedMessage
    → List ConnectionHandle × ℕ
unfolding tenant_connections
handle_routed_message parse takes r m =
    if is_for r.session_store.server_id m.to_server
    then deliver_parsed takes r m (parse m.payload)
    else ([], 0)

-- `RoutedMessageSubscriber::handle_routed_message`, once the message is parsed: one of this server
-- itself, and one for another server, is passed over. The subscriber's server is that of the store.
unfoldable pub receive_routed :
    (Str → Result ServerMessage Str)
    → (ConnectionHandle → Bool)
    → ClusterRouter
    → RoutedMessage
    → List ConnectionHandle
unfolding handle_routed_message
receive_routed parse takes r m =
    let server_id = r.session_store.server_id in
    if m.from_server == server_id
    then []
    else if is_for server_id m.to_server
    then (handle_routed_message parse takes r m).0
    else []
