-- ===== src/Connection/Invariant/Subscribe.antt =====
-- Subscribing, unsubscribing and activity keep the invariant.
use ara_notification_service.Common.{
  ℕ, ◌≡◌, inl, inr, some, Str, nat_key, str_key, get, insert, arith, get-insert,
  keys-insert-IsUnique, index_remove-IsIndex, filed-index_remove, index_insert-IsIndex,
  filed-index_insert, set_insert, set_remove, set_insert-IsUnique, retain-IsUnique,
  contains-set_insert, contains-set_remove, Option-cases, Chrono,
}
use mathlib.Core.Path.{subst}
use ara_notification_service.Connection.Types.{ConnectionHandle, ConnectionManager, update_activity}
use ara_notification_service.Connection.Manager.{
  add_subscription, subscribe_handle, subscribe_to_channel, drop_subscription,
  unsubscribe_from_channel, touch,
}
use ara_notification_service.Connection.Valid.{IsValid, HandleOk, insert-HandleOk}

module _ (m : ConnectionManager) (id : ℕ) (h : ConnectionHandle) (v : IsValid m)
    (found : get id m.connections ≡ some h) where
  handle_ok : HandleOk id (some h)
  handle_ok = subst (HandleOk id) found (v.handles id)

  add_subscription-IsValid : (channel : Str) → IsValid (add_subscription m id h channel)
  unfolding add_subscription
  add_subscription-IsValid channel = record {
    ids_unique = keys-insert-IsUnique id h' m.connections v.ids_unique;
    handles = λ i.
        insert-HandleOk i id h' m.connections
          (λ e. rw e (handle_ok.0, set_insert-IsUnique channel h.subscriptions handle_ok.1))
          (v.handles i);
    users = v.users;
    tenants = v.tenants;
    channels = index_insert-IsIndex channel id m.channel_index v.channels;
    user_filed = λ u i. ground (arith, v.user_filed u i, get-insert i id h' m.connections);
    tenant_filed = λ t i. ground (arith, v.tenant_filed t i, get-insert i id h' m.connections);
    channel_filed = λ c i. ground (
      arith,
      filed-index_insert channel c id i m.channel_index,
      v.channel_filed c i,
      get-insert i id h' m.connections,
      contains-set_insert channel c h.subscriptions,
    );
  }
    where
      h' : ConnectionHandle
      h' = record h { subscriptions = set_insert channel h.subscriptions }

  drop_subscription-IsValid : (channel : Str) → IsValid (drop_subscription m id h channel)
  unfolding drop_subscription
  drop_subscription-IsValid channel = record {
    ids_unique = keys-insert-IsUnique id h' m.connections v.ids_unique;
    handles = λ i.
        insert-HandleOk i id h' m.connections
          (λ e. rw e (handle_ok.0, retain-IsUnique _ h.subscriptions handle_ok.1)) (v.handles i);
    users = v.users;
    tenants = v.tenants;
    channels = index_remove-IsIndex channel id m.channel_index v.channels;
    user_filed = λ u i. ground (arith, v.user_filed u i, get-insert i id h' m.connections);
    tenant_filed = λ t i. ground (arith, v.tenant_filed t i, get-insert i id h' m.connections);
    channel_filed = λ c i. ground (
      arith,
      filed-index_remove channel c id i m.channel_index,
      v.channel_filed c i,
      get-insert i id h' m.connections,
      contains-set_remove channel c h.subscriptions,
    );
  }
    where
      h' : ConnectionHandle
      h' = record h { subscriptions = set_remove channel h.subscriptions }

  touched-IsValid :
      (c : Chrono) (now : ℕ)
      → IsValid (record m { connections = insert id (update_activity c now h) m.connections })
  unfolding update_activity
  touched-IsValid c now = record {
    ids_unique = keys-insert-IsUnique id _ m.connections v.ids_unique;
    handles = λ i. insert-HandleOk i id _ m.connections (λ e. rw e handle_ok) (v.handles i);
    users = v.users;
    tenants = v.tenants;
    channels = v.channels;
    user_filed = λ u i.
        ground (arith, v.user_filed u i, get-insert i id (update_activity c now h) m.connections);
    tenant_filed = λ u i.
        ground (arith, v.tenant_filed u i, get-insert i id (update_activity c now h) m.connections);
    channel_filed = λ u i.
        ground
          (arith, v.channel_filed u i, get-insert i id (update_activity c now h) m.connections);
  }

  subscribe_handle-IsValid : (channel : Str) → IsValid (subscribe_handle m id h channel).0
  unfolding subscribe_handle
  subscribe_handle-IsValid channel = ground (arith, add_subscription-IsValid channel, v)

pub subscribe_to_channel-IsValid :
    (m : ConnectionManager) (id : ℕ) (channel : Str)
    → IsValid m
    → IsValid (subscribe_to_channel m id channel).0
unfolding subscribe_to_channel
subscribe_to_channel-IsValid m id channel v = elim (Option-cases (get id m.connections)) [
  | inl e ↦ rw (e, subscribe_to_channel) v
  | inr (h, e) ↦ rw (e, subscribe_to_channel) (subscribe_handle-IsValid m id h v e channel)
]

pub unsubscribe_from_channel-IsValid :
    (m : ConnectionManager) (id : ℕ) (channel : Str)
    → IsValid m
    → IsValid (unsubscribe_from_channel m id channel)
unfolding unsubscribe_from_channel
unsubscribe_from_channel-IsValid m id channel v = elim (Option-cases (get id m.connections)) [
  | inl e ↦ rw (e, unsubscribe_from_channel) v
  | inr (h, e) ↦ rw (e, unsubscribe_from_channel) (drop_subscription-IsValid m id h v e channel)
]

pub touch-IsValid :
    (c : Chrono) (now : ℕ) (m : ConnectionManager) (id : ℕ) → IsValid m → IsValid (touch c now m id)
unfolding touch
touch-IsValid c now m id v = elim (Option-cases (get id m.connections)) [
  | inl e ↦ rw (e, touch) v
  | inr (h, e) ↦ rw (e, touch) (touched-IsValid m id h v e c now)
]
