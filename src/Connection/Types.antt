-- ===== src/Connection/Types.antt =====
-- The data of src/domain/connection/types.rs and of the manager's record. The sender of a connection
-- is the identity of its outbound channel.
use ara_notification_service.Common.{ℕ, List, HashMap, Str, str_key, Bool, contains, Chrono, ℤ}

pub record ConnectionHandle : Type 0 where
  pub id : ℕ
  pub user_id : Str
  pub tenant_id : Str
  pub roles : List Str
  pub sender : ℕ
  pub connected_at : ℕ
  pub last_activity : ℤ
  pub subscriptions : List Str

pub data ConnectionError : Type 0 where
  total_limit_exceeded : ℕ → ℕ → ConnectionError
  user_limit_exceeded : Str → ℕ → ℕ → ConnectionError

-- The two texts that a refused subscription can carry.
pub data SubscribeError : Type 0 where
  subscription_limit_exceeded : ℕ → ℕ → SubscribeError
  connection_not_found : SubscribeError

pub record ConnectionLimits : Type 0 where
  pub max_connections : ℕ
  pub max_connections_per_user : ℕ
  pub max_subscriptions_per_connection : ℕ

abbrev pub default_limits : ConnectionLimits
default_limits = record {
  max_connections = 10000;
  max_connections_per_user = 5;
  max_subscriptions_per_connection = 50;
}

pub record ConnectionManager : Type 0 where
  pub connections : HashMap ℕ ConnectionHandle
  pub user_index : HashMap Str (List ℕ)
  pub channel_index : HashMap Str (List ℕ)
  pub tenant_index : HashMap Str (List ℕ)
  pub limits : ConnectionLimits

-- `ConnectionHandle::new` at time `now`, with the identifier that `Uuid::new_v4` drew.
unfoldable pub new_handle : Chrono → ℕ → ℕ → Str → Str → List Str → ℕ → ConnectionHandle
new_handle c now id user_id tenant_id roles sender = record {
  id = id;
  user_id = user_id;
  tenant_id = tenant_id;
  roles = roles;
  sender = sender;
  connected_at = now;
  last_activity = c.timestamp now;
  subscriptions = List.[];
}

unfoldable pub update_activity : Chrono → ℕ → ConnectionHandle → ConnectionHandle
update_activity c now h = record h { last_activity = c.timestamp now }

unfoldable pub has_role : ConnectionHandle → Str → Bool
unfolding contains
has_role h role = contains role h.roles
