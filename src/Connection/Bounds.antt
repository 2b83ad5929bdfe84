-- ===== src/Connection/Bounds.antt =====
-- The limits of the registry against its calls.
use ara_notification_service.Common.{
  ℕ, ◌≤◌, ◌≡◌, refl, ◌∙◌, inl, inr, Bool, not, ◌&&◌, ltb, leb, some, List, [], ◌∷◌, length, Str,
  nat_key, str_key, HashMap, get, ◌==◌, arith, Chrono, Option-cases, get-insert, length-insert,
  insert, set_insert, index_insert, index_remove, Bool-cases, set_remove, length-append,
  length-retain-le, length-remove-le, length-members-index_remove-le,
}
use ara_notification_service.Connection.Types.{
  ConnectionHandle, ConnectionLimits, ConnectionManager, update_activity,
}
use ara_notification_service.Connection.Manager.{
  with_limits, unregister, drop_connection, subscribe_to_channel, subscribe_handle,
  add_subscription, unsubscribe_from_channel, drop_subscription, touch, user_conn_count,
}
use ara_notification_service.Connection.Queries.{
  cleanup_stale_connections, find_stale_connections, unregister_all,
}
use ara_notification_service.Connection.Limits.{
  Within, WithinLimits, register-WithinLimits, limits-register,
}
use ara_notification_service.Connection.Stale.{get-unregister}
use ara_notification_service.Connection.Calls.{
  Call, registers, unregisters, subscribes, unsubscribes, touches, sweeps, step, Fresh, Reachable,
  start, next,
}

with_limits-WithinLimits : (l : ConnectionLimits) → WithinLimits (with_limits l)
unfolding with_limits get
with_limits-WithinLimits l = record {
  total = inr (omega arith);
  per_user = λ u. inr (omega arith);
  per_connection = λ i. inr (omega arith);
}

unregister-WithinLimits :
    (m : ConnectionManager) (id : ℕ) → WithinLimits m → WithinLimits (unregister m id)
unregister-WithinLimits m id w = record {
  total = ground (arith, w.total, smaller, same);
  per_user = λ u. ground (arith, w.per_user u, fewer u, same);
  per_connection = λ i. ground (arith, w.per_connection i, get-unregister m id i, same);
}
  where
    smaller : length (unregister m id).connections ≤ length m.connections
    smaller = unfold unregister drop_connection in ground (arith, length-remove-le id m.connections)

    same : (unregister m id).limits ≡ m.limits
    same = unfold unregister drop_connection in ground arith

    fewer : (u : Str) → user_conn_count (unregister m id) u ≤ user_conn_count m u
    fewer u = elim (Option-cases (get id m.connections)) [
      | inl e ↦ unfold unregister in rw (e, unregister) (omega arith)
      | inr (h, e) ↦
          unfold unregister drop_connection in
          rw (e, unregister, drop_connection)
            (length-members-index_remove-le h.user_id u id m.user_index)
    ]

module _ (m : ConnectionManager) (id : ℕ) (h : ConnectionHandle) (w : WithinLimits m)
    (found : get id m.connections ≡ some h) where
  here : Within m.limits.max_subscriptions_per_connection (length h.subscriptions)
  here = ground (arith, w.per_connection id)

  -- Writing a handle over the one that was there.
  overwrite-WithinLimits :
      (h' : ConnectionHandle) (idx : HashMap Str (List ℕ))
      → Within m.limits.max_subscriptions_per_connection (length h'.subscriptions)
      → WithinLimits (record m { connections = insert id h' m.connections; channel_index = idx })
  overwrite-WithinLimits h' idx few = record {
    total = ground (arith, w.total, length-insert id h' m.connections);
    per_user = w.per_user;
    per_connection = λ i. ground (arith, w.per_connection i, get-insert i id h' m.connections);
  }

  subscribe_handle-WithinLimits : (channel : Str) → WithinLimits (subscribe_handle m id h channel).0
  unfolding subscribe_handle add_subscription
  subscribe_handle-WithinLimits channel = elim (Bool-cases full) [
    | inl e ↦ rw e w
    | inr e ↦ rw e (
        overwrite-WithinLimits (record h { subscriptions = set_insert channel h.subscriptions })
          (index_insert channel id m.channel_index)
          (ground (arith, length-append h.subscriptions (channel ∷ []))))
  ]
    where
      full : Bool
      full =
          ltb 0 m.limits.max_subscriptions_per_connection
          && leb m.limits.max_subscriptions_per_connection (length h.subscriptions)

  drop_subscription-WithinLimits : (channel : Str) → WithinLimits (drop_subscription m id h channel)
  unfolding drop_subscription
  drop_subscription-WithinLimits channel =
      overwrite-WithinLimits (record h { subscriptions = set_remove channel h.subscriptions })
        (index_remove channel id m.channel_index)
        (ground (arith, here, length-retain-le (λ x. not (x == channel)) h.subscriptions))

  touched-WithinLimits :
      (c : Chrono) (now : ℕ)
      → WithinLimits (record m { connections = insert id (update_activity c now h) m.connections })
  unfolding update_activity
  touched-WithinLimits c now = overwrite-WithinLimits (update_activity c now h) m.channel_index here

module _ (c : Chrono) where
  subscribe_to_channel-WithinLimits :
      (m : ConnectionManager) (id : ℕ) (channel : Str)
      → WithinLimits m
      → WithinLimits (subscribe_to_channel m id channel).0
  unfolding subscribe_to_channel
  subscribe_to_channel-WithinLimits m id channel w = elim (Option-cases (get id m.connections)) [
    | inl e ↦ rw (e, subscribe_to_channel) w
    | inr (h, e) ↦ rw (e, subscribe_to_channel) (subscribe_handle-WithinLimits m id h w e channel)
  ]

  unsubscribe_from_channel-WithinLimits :
      (m : ConnectionManager) (id : ℕ) (channel : Str)
      → WithinLimits m
      → WithinLimits (unsubscribe_from_channel m id channel)
  unfolding unsubscribe_from_channel
  unsubscribe_from_channel-WithinLimits m id channel w =
      elim (Option-cases (get id m.connections)) [
        | inl e ↦ rw (e, unsubscribe_from_channel) w
        | inr (h, e) ↦
            rw (e, unsubscribe_from_channel) (drop_subscription-WithinLimits m id h w e channel)
      ]

  touch-WithinLimits :
      (now : ℕ) (m : ConnectionManager) (id : ℕ) → WithinLimits m → WithinLimits (touch c now m id)
  unfolding touch
  touch-WithinLimits now m id w = elim (Option-cases (get id m.connections)) [
    | inl e ↦ rw (e, touch) w
    | inr (h, e) ↦ rw (e, touch) (touched-WithinLimits m id h w e c now)
  ]

  unregister_all-WithinLimits :
      (is : List ℕ) (m : ConnectionManager) → WithinLimits m → WithinLimits (unregister_all m is)
  unfolding unregister_all
  unregister_all-WithinLimits [] m w = w
  unregister_all-WithinLimits (i ∷ is) m w =
      unregister_all-WithinLimits is (unregister m i) (unregister-WithinLimits m i w)

  cleanup-WithinLimits :
      (now t : ℕ) (m : ConnectionManager)
      → WithinLimits m
      → WithinLimits (cleanup_stale_connections c now m t).0
  unfolding cleanup_stale_connections
  cleanup-WithinLimits now t m w =
      unregister_all-WithinLimits (find_stale_connections c now m t) m w

  pub step-WithinLimits :
      (m : ConnectionManager) (call : Call)
      → Fresh m call
      → WithinLimits m
      → WithinLimits (step c m call)
  unfolding step
  step-WithinLimits m (registers now id u t r s) f w = register-WithinLimits c now id m u t r s f w
  step-WithinLimits m (unregisters id) f w = unregister-WithinLimits m id w
  step-WithinLimits m (subscribes id ch) f w = subscribe_to_channel-WithinLimits m id ch w
  step-WithinLimits m (unsubscribes id ch) f w = unsubscribe_from_channel-WithinLimits m id ch w
  step-WithinLimits m (touches now id) f w = touch-WithinLimits now m id w
  step-WithinLimits m (sweeps now t) f w = cleanup-WithinLimits now t m w

limits-subscribe_to_channel :
    (m : ConnectionManager) (id : ℕ) (channel : Str)
    → (subscribe_to_channel m id channel).0.limits ≡ m.limits
unfolding subscribe_to_channel subscribe_handle add_subscription
limits-subscribe_to_channel m id channel = ground arith

limits-unsubscribe_from_channel :
    (m : ConnectionManager) (id : ℕ) (channel : Str)
    → (unsubscribe_from_channel m id channel).limits ≡ m.limits
unfolding unsubscribe_from_channel drop_subscription
limits-unsubscribe_from_channel m id channel = ground arith

limits-touch :
    (c : Chrono) (now : ℕ) (m : ConnectionManager) (id : ℕ) → (touch c now m id).limits ≡ m.limits
unfolding touch
limits-touch c now m id = ground arith

limits-unregister : (m : ConnectionManager) (id : ℕ) → (unregister m id).limits ≡ m.limits
unfolding unregister drop_connection
limits-unregister m id = ground arith

limits-unregister_all :
    (is : List ℕ) (m : ConnectionManager) → (unregister_all m is).limits ≡ m.limits
unfolding unregister_all
limits-unregister_all [] m = refl
limits-unregister_all (i ∷ is) m = limits-unregister_all is (unregister m i) ∙ limits-unregister m i

limits-step : (c : Chrono) (m : ConnectionManager) (call : Call) → (step c m call).limits ≡ m.limits
unfolding step cleanup_stale_connections
limits-step c m (registers now id u t r s) = limits-register c now id m u t r s
limits-step c m (unregisters id) = limits-unregister m id
limits-step c m (subscribes id ch) = limits-subscribe_to_channel m id ch
limits-step c m (unsubscribes id ch) = limits-unsubscribe_from_channel m id ch
limits-step c m (touches now id) = limits-touch c now m id
limits-step c m (sweeps now t) = limits-unregister_all (find_stale_connections c now m t) m

-- Whatever clients ask, the limits stay those of the start, and none is passed: not on all
-- connections, not on those of a user, not on the subscriptions of a connection.
pub Reachable-WithinLimits :
    (c : Chrono) (limits : ConnectionLimits) {m : ConnectionManager}
    → Reachable c limits m
    → (m.limits ≡ limits) × WithinLimits m
Reachable-WithinLimits c limits start =
    (unfold with_limits in refl, with_limits-WithinLimits limits)
Reachable-WithinLimits c limits (next {m} call f r) =
    let (same, w) = Reachable-WithinLimits c limits r in
    (limits-step c m call ∙ same, step-WithinLimits c m call f w)
