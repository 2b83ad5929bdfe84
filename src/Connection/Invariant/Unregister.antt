-- ===== src/Connection/Invariant/Unregister.antt =====
-- `unregister` keeps the invariant: the connection leaves the registry and every index.
use ara_notification_service.Common.{
  ℕ, ◌≡◌, refl, inl, inr, not, ◌&&◌, some, Str, nat_key, str_key, HashMap, get, filed, contains,
  ◌==◌, arith, get-remove, List, [], ◌∷◌, keys-remove-IsUnique, index_remove, index_remove-IsIndex,
  filed-index_remove, IsIndex, Option-cases,
}
use ara_notification_service.Connection.Types.{ConnectionHandle, ConnectionManager}
use ara_notification_service.Connection.Manager.{drop_channels, drop_connection, unregister}
use ara_notification_service.Connection.Valid.{IsValid, remove-HandleOk}

pub drop_channels-IsIndex :
    (cs : List Str) (id : ℕ) (idx : HashMap Str (List ℕ))
    → IsIndex idx
    → IsIndex (drop_channels cs id idx)
unfolding drop_channels
drop_channels-IsIndex [] id idx v = v
drop_channels-IsIndex (c ∷ cs) id idx v =
    drop_channels-IsIndex cs id (index_remove c id idx) (index_remove-IsIndex c id idx v)

-- The loop takes the identifier out of the listed channels and leaves all else as it was.
pub filed-drop_channels :
    (cs : List Str) (id : ℕ) (idx : HashMap Str (List ℕ)) (c : Str) (i : ℕ)
    → filed (drop_channels cs id idx) c i ≡ (not (contains c cs && i == id) && filed idx c i)
unfolding drop_channels contains
filed-drop_channels [] id idx c i = refl
filed-drop_channels (d ∷ cs) id idx c i =
    ground (
      arith,
      filed-drop_channels cs id (index_remove d id idx) c i,
      filed-index_remove d c id i idx,
    )

module _ (m : ConnectionManager) (id : ℕ) (h : ConnectionHandle) (v : IsValid m)
    (found : get id m.connections ≡ some h) where
  drop_connection-IsValid : IsValid (drop_connection m id h)
  unfolding drop_connection
  drop_connection-IsValid = record {
    ids_unique = keys-remove-IsUnique id m.connections v.ids_unique;
    handles = λ i. remove-HandleOk i id m.connections (v.handles i);
    users = index_remove-IsIndex h.user_id id m.user_index v.users;
    tenants = index_remove-IsIndex h.tenant_id id m.tenant_index v.tenants;
    channels = drop_channels-IsIndex h.subscriptions id m.channel_index v.channels;
    user_filed = λ u i. ground (
      arith,
      filed-index_remove h.user_id u id i m.user_index,
      v.user_filed u i,
      get-remove i id m.connections,
    );
    tenant_filed = λ t i. ground (
      arith,
      filed-index_remove h.tenant_id t id i m.tenant_index,
      v.tenant_filed t i,
      get-remove i id m.connections,
    );
    channel_filed = λ c i. ground (
      arith,
      filed-drop_channels h.subscriptions id m.channel_index c i,
      v.channel_filed c i,
      get-remove i id m.connections,
    );
  }

pub unregister-IsValid : (m : ConnectionManager) (id : ℕ) → IsValid m → IsValid (unregister m id)
unfolding unregister
unregister-IsValid m id v = elim (Option-cases (get id m.connections)) [
  | inl e ↦ rw (e, unregister) v
  | inr (h, e) ↦ rw (e, unregister) (drop_connection-IsValid m id h v e)
]
