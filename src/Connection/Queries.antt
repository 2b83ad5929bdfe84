-- ===== src/Connection/Queries.antt =====
-- The operations of src/domain/connection/manager.rs that read the registry, and the removal of
-- stale connections. A hash set in a result is the list of its elements.
use ara_notification_service.Common.{
  ℕ, Bool, ltb, if◌then◌else◌, Option, none, some, List, [], ◌∷◌, map, length, is_empty, contains,
  Str, nat_key, str_key, HashMap, get, keys, values, contains_key, members, set_insert, sum_by,
  count, Chrono, as_i64,
}
use ara_notification_service.Connection.Types.{ConnectionHandle, ConnectionManager}
use ara_notification_service.Connection.Manager.{unregister}

-- The `filter_map` over the identifiers of an index entry.
unfoldable pub lookup_all : HashMap ℕ ConnectionHandle → List ℕ → List ConnectionHandle
lookup_all conns [] = []
lookup_all conns (i ∷ is) =
    let rest = lookup_all conns is in elim (get i conns) [ none ↦ rest | some h ↦ h ∷ rest ]

unfoldable pub get_user_connections : ConnectionManager → Str → List ConnectionHandle
get_user_connections m user_id = lookup_all m.connections (members user_id m.user_index)

unfoldable pub get_channel_connections : ConnectionManager → Str → List ConnectionHandle
get_channel_connections m channel = lookup_all m.connections (members channel m.channel_index)

unfoldable pub get_tenant_connections : ConnectionManager → Str → List ConnectionHandle
get_tenant_connections m tenant_id = lookup_all m.connections (members tenant_id m.tenant_index)

unfoldable pub get_all_connections : ConnectionManager → List ConnectionHandle
get_all_connections m = values m.connections

unfoldable pub get_connection : ConnectionManager → ℕ → Option ConnectionHandle
get_connection m id = get id m.connections

unfoldable pub get_all_connection_ids : ConnectionManager → List ℕ
get_all_connection_ids m = keys m.connections

pub record ConnectionStats : Type 0 where
  pub total_connections : ℕ
  pub unique_users : ℕ
  pub channels : HashMap Str ℕ

pub record TenantConnectionStats : Type 0 where
  pub tenant_id : Str
  pub total_connections : ℕ
  pub unique_users : ℕ

pub record ChannelInfo : Type 0 where
  pub name : Str
  pub subscriber_count : ℕ

pub record UserSubscriptionInfo : Type 0 where
  pub user_id : Str
  pub connection_count : ℕ
  pub subscriptions : List Str

abbrev pub channel_counts : HashMap Str (List ℕ) → HashMap Str ℕ
channel_counts = map (λ e. (e.0, length e.1))

unfoldable pub stats : ConnectionManager → ConnectionStats
stats m = record {
  total_connections = length m.connections;
  unique_users = length m.user_index;
  channels = channel_counts m.channel_index;
}

unfoldable pub total_subscriptions : ConnectionManager → ℕ
total_subscriptions m = sum_by (λ e. length e.1) m.channel_index

-- `DateTime::from_timestamp(..).unwrap_or_else(Utc::now)`.
unfoldable pub last_activity : Chrono → ℕ → ConnectionHandle → ℕ
last_activity c now h = elim (c.from_timestamp h.last_activity) [ none ↦ now | some t ↦ t ]

unfoldable pub is_stale : Chrono → ℕ → ℕ → ConnectionHandle → Bool
unfolding last_activity
is_stale c now timeout_secs h = c.longer_than now (last_activity c now h) (as_i64 timeout_secs)

unfoldable pub stale_ids : Chrono → ℕ → ℕ → HashMap ℕ ConnectionHandle → List ℕ
stale_ids c now timeout_secs [] = []
stale_ids c now timeout_secs ((i, h) ∷ conns) =
    let rest = stale_ids c now timeout_secs conns in
    if is_stale c now timeout_secs h then i ∷ rest else rest

unfoldable pub find_stale_connections : Chrono → ℕ → ConnectionManager → ℕ → List ℕ
unfolding stale_ids
find_stale_connections c now m timeout_secs = stale_ids c now timeout_secs m.connections

unfoldable pub unregister_all : ConnectionManager → List ℕ → ConnectionManager
unregister_all m [] = m
unregister_all m (i ∷ is) = unregister_all (unregister m i) is

unfoldable pub cleanup_stale_connections :
    Chrono → ℕ → ConnectionManager → ℕ → ConnectionManager × ℕ
unfolding find_stale_connections unregister_all
cleanup_stale_connections c now m timeout_secs =
    let stale = find_stale_connections c now m timeout_secs in
    (unregister_all m stale, length stale)

unfoldable pub list_channels : ConnectionManager → List ChannelInfo
list_channels m = map (λ e. record { name = e.0; subscriber_count = length e.1 }) m.channel_index

unfoldable pub get_channel_info : ConnectionManager → Str → Option ChannelInfo
get_channel_info m channel = elim (get channel m.channel_index) [
  | none ↦ none
  | some s ↦ some (record { name = channel; subscriber_count = length s })
]

unfoldable pub channel_exists : ConnectionManager → Str → Bool
channel_exists m channel = contains_key channel m.channel_index

abbrev pub extend : List Str → List Str → List Str
extend set [] = set
extend set (x ∷ xs) = extend (set_insert x set) xs

abbrev pub all_subscriptions : List Str → List ConnectionHandle → List Str
all_subscriptions acc [] = acc
all_subscriptions acc (h ∷ hs) = all_subscriptions (extend acc h.subscriptions) hs

unfoldable pub get_user_subscriptions : ConnectionManager → Str → Option UserSubscriptionInfo
unfolding get_user_connections
get_user_subscriptions m user_id =
    let connections = get_user_connections m user_id in
    if is_empty connections
    then none
    else some (record {
      user_id = user_id;
      connection_count = length connections;
      subscriptions = all_subscriptions [] connections;
    })

unfoldable pub tenant_stats : ConnectionManager → Str → TenantConnectionStats
unfolding get_tenant_connections
tenant_stats m tenant_id = record {
  tenant_id = tenant_id;
  total_connections = length (get_tenant_connections m tenant_id);
  unique_users = length (extend [] (map (λ h. h.user_id) (get_tenant_connections m tenant_id)));
}

unfoldable pub tenant_connection_count : ConnectionManager → Str → ℕ
tenant_connection_count m tenant_id = length (members tenant_id m.tenant_index)

unfoldable pub list_tenants : ConnectionManager → List Str
list_tenants m = keys m.tenant_index

-- The channels of an index with the number of their subscribers that are in the set.
unfoldable pub channels_within : List ℕ → HashMap Str (List ℕ) → List ChannelInfo
channels_within ids [] = []
channels_within ids ((c, s) ∷ idx) =
    let n = count (λ i. contains i ids) s in
    let rest = channels_within ids idx in
    if ltb 0 n then record { name = c; subscriber_count = n } ∷ rest else rest

unfoldable pub list_tenant_channels : ConnectionManager → Str → List ChannelInfo
unfolding channels_within
list_tenant_channels m tenant_id =
    let ids = members tenant_id m.tenant_index in
    if is_empty ids then [] else channels_within ids m.channel_index
