-- ===== src/Connection/Invariant/Register.antt =====
-- `register` keeps the invariant.
use ara_notification_service.Common.{
  ℕ, ◌≡◌, refl, none, Str, nat_key, str_key, get, contains, arith, get-insert, keys-insert-IsUnique,
  index_push-IsIndex, index_insert-IsIndex, filed-index_push, filed-index_insert, Chrono, List, [],
}
use ara_notification_service.Connection.Types.{
  ConnectionHandle, ConnectionManager, ConnectionLimits, new_handle,
}
use ara_notification_service.Connection.Manager.{
  add_connection, register_with_limits, register, with_limits,
}
use ara_notification_service.Connection.Valid.{IsValid, insert-HandleOk}

pub with_limits-IsValid : (l : ConnectionLimits) → IsValid (with_limits l)
unfolding with_limits get contains
with_limits-IsValid l = record {
  ids_unique = tt;
  handles = λ i. tt;
  users = record { keys_unique = tt; entries = λ k. tt };
  tenants = record { keys_unique = tt; entries = λ k. tt };
  channels = record { keys_unique = tt; entries = λ k. tt };
  user_filed = λ u i. refl;
  tenant_filed = λ u i. refl;
  channel_filed = λ u i. refl;
}

module _ (m : ConnectionManager) (h : ConnectionHandle) (v : IsValid m)
    (fresh : get h.id m.connections ≡ none) (bare : h.subscriptions ≡ []) where
  pub add_connection-IsValid : IsValid (add_connection m h)
  unfolding add_connection contains
  add_connection-IsValid = record {
    ids_unique = keys-insert-IsUnique h.id h m.connections v.ids_unique;
    handles =
        λ i. insert-HandleOk i h.id h m.connections (λ e. (ground arith, rw bare tt)) (v.handles i);
    users =
        index_push-IsIndex h.user_id h.id m.user_index (ground (arith, v.user_filed h.user_id h.id))
          v.users;
    tenants = index_insert-IsIndex h.tenant_id h.id m.tenant_index v.tenants;
    channels = v.channels;
    user_filed = λ u i. ground (
      arith,
      filed-index_push h.user_id u h.id i m.user_index,
      v.user_filed u i,
      get-insert i h.id h m.connections,
    );
    tenant_filed = λ t i. ground (
      arith,
      filed-index_insert h.tenant_id t h.id i m.tenant_index,
      v.tenant_filed t i,
      get-insert i h.id h m.connections,
    );
    channel_filed = λ c i. ground (arith, v.channel_filed c i, get-insert i h.id h m.connections);
  }

pub register_with_limits-IsValid :
    (c : Chrono) (now id : ℕ) (m : ConnectionManager) (user_id tenant_id : Str) (roles : List Str)
    (sender : ℕ) (limits : ConnectionLimits)
    → IsValid m
    → get id m.connections ≡ none
    → IsValid (register_with_limits c now id m user_id tenant_id roles sender limits).0
unfolding register_with_limits new_handle
register_with_limits-IsValid c now id m user_id tenant_id roles sender limits v fresh = ground (
  arith,
  add_connection-IsValid m (new_handle c now id user_id tenant_id roles sender) v fresh refl,
  v,
)

pub register-IsValid :
    (c : Chrono) (now id : ℕ) (m : ConnectionManager) (user_id tenant_id : Str) (roles : List Str)
    (sender : ℕ)
    → IsValid m
    → get id m.connections ≡ none
    → IsValid (register c now id m user_id tenant_id roles sender).0
unfolding register
register-IsValid c now id m user_id tenant_id roles sender =
    register_with_limits-IsValid c now id m user_id tenant_id roles sender m.limits
