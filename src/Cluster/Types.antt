-- ===== src/Cluster/Types.antt =====
-- The data of src/domain/cluster/types.rs, the session store as its clients see it (traits.rs), and the
-- store of a server that runs alone (local.rs).
use ara_notification_service.Common.{
  ℕ, Bool, false, Option, List, [], ◌∷◌, Str, codes, Result, ok, err,
}
use ara_notification_service.WebSocket.Handler.{SessionInfo}

pub record ClusterConfig : Type 0 where
  pub enabled : Bool
  pub server_id : Str
  pub session_prefix : Str
  pub session_ttl_seconds : ℕ
  pub routing_channel : Str

-- The default, with the identifier that `Uuid::new_v4` drew as text.
abbrev pub default_cluster : Str → ClusterConfig
default_cluster server_id = record {
  enabled = false;
  server_id = server_id;
  session_prefix = codes "ara:cluster:sessions";
  session_ttl_seconds = 60;
  routing_channel = codes "ara:cluster:route";
}

pub record RoutedMessage : Type 0 where
  pub user_id : Str
  pub tenant_id : Str
  pub connection_id : Option ℕ
  pub payload : Str
  pub from_server : Str
  pub to_server : Option Str

pub data SessionStoreError : Type 0 where
  redis_error : Str → SessionStoreError
  serialization_error : Str → SessionStoreError
  disabled : SessionStoreError

pub data SessionStoreBackend : Type 0 where
  local redis : SessionStoreBackend

-- What the store answers at some moment. Its changes are calls to a server outside.
pub record SessionStore : Type 0 where
  pub server_id : Str
  pub is_enabled : Bool
  pub backend_type : SessionStoreBackend
  pub register_session : SessionInfo → Result (Unit {0}) SessionStoreError
  pub unregister_session : ℕ → Result (Unit {0}) SessionStoreError
  pub update_session_channels : ℕ → List Str → Result (Unit {0}) SessionStoreError
  pub refresh_sessions : Result ℕ SessionStoreError
  pub find_user_servers : Str → Result (List Str) SessionStoreError
  pub find_channel_servers : Str → Result (List Str) SessionStoreError
  pub publish_routed_message : RoutedMessage → Result (Unit {0}) SessionStoreError
  pub cluster_connection_count : Result ℕ SessionStoreError
  pub cluster_user_count : Result ℕ SessionStoreError
  pub get_all_sessions : Result (List SessionInfo) SessionStoreError
  pub get_user_sessions : Str → Result (List SessionInfo) SessionStoreError

-- `LocalSessionStore`.
unfoldable pub local_store : Str → SessionStore
local_store server_id = record {
  server_id = server_id;
  is_enabled = false;
  backend_type = local;
  register_session = λ session. ok tt;
  unregister_session = λ connection_id. ok tt;
  update_session_channels = λ connection_id channels. ok tt;
  refresh_sessions = ok 0;
  find_user_servers = λ user_id. ok (server_id ∷ []);
  find_channel_servers = λ channel. ok (server_id ∷ []);
  publish_routed_message = λ message. err disabled;
  cluster_connection_count = err disabled;
  cluster_user_count = err disabled;
  get_all_sessions = ok [];
  get_user_sessions = λ user_id. ok [];
}
