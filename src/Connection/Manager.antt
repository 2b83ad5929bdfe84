-- ===== src/Connection/Manager.antt =====
-- The operations of src/domain/connection/manager.rs that change the registry. Each call is one step:
-- a call that awaits a lock in the source is modelled as it runs when nothing interleaves.
use ara_notification_service.Common.{
  ℕ, ◌&&◌, ltb, leb, if◌then◌else◌, none, some, List, [], ◌∷◌, length, Str, nat_key, str_key,
  HashMap, get, insert, remove, members, index_push, index_insert, index_remove, set_insert,
  set_remove, Result, ok, err, Chrono,
}
use ara_notification_service.Connection.Types.{
  ConnectionHandle, ConnectionError, SubscribeError, ConnectionLimits, ConnectionManager,
  default_limits, new_handle, update_activity, total_limit_exceeded, user_limit_exceeded,
  subscription_limit_exceeded, connection_not_found,
}

unfoldable pub with_limits : ConnectionLimits → ConnectionManager
with_limits limits = record {
  connections = [];
  user_index = [];
  channel_index = [];
  tenant_index = [];
  limits = limits;
}

unfoldable pub new : ConnectionManager
unfolding with_limits
new = with_limits default_limits

-- What `register_with_limits` writes once the limits are checked.
unfoldable pub add_connection : ConnectionManager → ConnectionHandle → ConnectionManager
add_connection m h = record m {
  connections = insert h.id h m.connections;
  user_index = index_push h.user_id h.id m.user_index;
  tenant_index = index_insert h.tenant_id h.id m.tenant_index;
}

-- The number of connections that the index holds for a user.
abbrev pub user_conn_count : ConnectionManager → Str → ℕ
user_conn_count m user_id = length (members user_id m.user_index)

unfoldable pub register_with_limits :
    Chrono
    → ℕ
    → ℕ
    → ConnectionManager
    → Str
    → Str
    → List Str
    → ℕ
    → ConnectionLimits
    → ConnectionManager × Result ConnectionHandle ConnectionError
unfolding add_connection new_handle
register_with_limits c now id m user_id tenant_id roles sender limits =
    let total = length m.connections in
    let current = user_conn_count m user_id in
    let handle = new_handle c now id user_id tenant_id roles sender in
    if ltb 0 limits.max_connections && leb limits.max_connections total
    then (m, err (total_limit_exceeded total limits.max_connections))
    else (if ltb 0 limits.max_connections_per_user && leb limits.max_connections_per_user current
        then (m, err (user_limit_exceeded user_id current limits.max_connections_per_user))
        else (add_connection m handle, ok handle))

unfoldable pub register :
    Chrono
    → ℕ
    → ℕ
    → ConnectionManager
    → Str
    → Str
    → List Str
    → ℕ
    → ConnectionManager × Result ConnectionHandle ConnectionError
unfolding register_with_limits
register c now id m user_id tenant_id roles sender =
    register_with_limits c now id m user_id tenant_id roles sender m.limits

-- The loop of `unregister` over the channels of the connection.
unfoldable pub drop_channels : List Str → ℕ → HashMap Str (List ℕ) → HashMap Str (List ℕ)
drop_channels [] id idx = idx
drop_channels (channel ∷ rest) id idx = drop_channels rest id (index_remove channel id idx)

-- What `unregister` does once it has taken the handle out of the map.
unfoldable pub drop_connection : ConnectionManager → ℕ → ConnectionHandle → ConnectionManager
unfolding drop_channels
drop_connection m id h = record m {
  connections = remove id m.connections;
  user_index = index_remove h.user_id id m.user_index;
  tenant_index = index_remove h.tenant_id id m.tenant_index;
  channel_index = drop_channels h.subscriptions id m.channel_index;
}

unfoldable pub unregister : ConnectionManager → ℕ → ConnectionManager
unfolding drop_connection
unregister m id = elim (get id m.connections) [ none ↦ m | some h ↦ drop_connection m id h ]

-- What `subscribe_to_channel` writes once the limit is checked.
unfoldable pub add_subscription : ConnectionManager → ℕ → ConnectionHandle → Str → ConnectionManager
add_subscription m id h channel = record m {
  connections =
      insert id (record h { subscriptions = set_insert channel h.subscriptions }) m.connections;
  channel_index = index_insert channel id m.channel_index;
}

unfoldable pub subscribe_handle :
    ConnectionManager
    → ℕ
    → ConnectionHandle
    → Str
    → ConnectionManager × Result (Unit {0}) SubscribeError
unfolding add_subscription
subscribe_handle m id h channel =
    let current = length h.subscriptions in
    let most = m.limits.max_subscriptions_per_connection in
    if ltb 0 most && leb most current
    then (m, err (subscription_limit_exceeded current most))
    else (add_subscription m id h channel, ok tt)

unfoldable pub subscribe_to_channel :
    ConnectionManager → ℕ → Str → ConnectionManager × Result (Unit {0}) SubscribeError
unfolding subscribe_handle
subscribe_to_channel m id channel = elim (get id m.connections) [
  | none ↦ (m, err connection_not_found)
  | some h ↦ subscribe_handle m id h channel
]

unfoldable pub drop_subscription :
    ConnectionManager → ℕ → ConnectionHandle → Str → ConnectionManager
drop_subscription m id h channel = record m {
  connections =
      insert id (record h { subscriptions = set_remove channel h.subscriptions }) m.connections;
  channel_index = index_remove channel id m.channel_index;
}

unfoldable pub unsubscribe_from_channel : ConnectionManager → ℕ → Str → ConnectionManager
unfolding drop_subscription
unsubscribe_from_channel m id channel = elim (get id m.connections) [
  | none ↦ m
  | some h ↦ drop_subscription m id h channel
]

-- `handle.update_activity()` on a handle of the registry.
unfoldable pub touch : Chrono → ℕ → ConnectionManager → ℕ → ConnectionManager
unfolding update_activity
touch c now m id = elim (get id m.connections) [
  | none ↦ m
  | some h ↦ record m { connections = insert id (update_activity c now h) m.connections }
]
