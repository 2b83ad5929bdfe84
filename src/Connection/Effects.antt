-- ===== src/Connection/Effects.antt =====
-- What leaving, subscribing and unsubscribing change, as later lookups see it.
use ara_notification_service.Common.{
  ℕ, ◌≤◌, ◌<◌, ◌+◌, ◌⊎◌, ◌≡◌, ap, inl, inr, Bool, false, not, ◌&&◌, ◌||◌, if◌then◌else◌, none, some,
  length, contains, Str, nat_key, str_key, get, filed, ◌==◌, arith, ok, err, Option-cases,
  filed-index_insert, filed-index_remove,
}
use ara_notification_service.Connection.Types.{
  ConnectionHandle, ConnectionManager, subscription_limit_exceeded, connection_not_found,
}
use ara_notification_service.Connection.Manager.{
  unregister, subscribe_to_channel, subscribe_handle, add_subscription, unsubscribe_from_channel,
  drop_subscription,
}
use ara_notification_service.Connection.Queries.{get_channel_connections}
use ara_notification_service.Connection.Lookup.{ids, ids-get_channel_connections}
use ara_notification_service.Connection.Valid.{IsValid}
use ara_notification_service.Connection.Invariant.{
  unregister-IsValid, subscribe_to_channel-IsValid, unsubscribe_from_channel-IsValid,
}
use ara_notification_service.Connection.Stale.{get-unregister}
use ara_notification_service.Connection.Limits.{Within}

-- Does the lookup of the channel return the connection?
abbrev pub listens : ConnectionManager → Str → ℕ → Bool
listens m c i = contains i (ids (get_channel_connections m c))

module _ (m : ConnectionManager) (id : ℕ) (v : IsValid m) where
  -- After `unregister` the connection is in no map and no index, and every other one is stored as it
  -- was.
  pub unregister_lem :
      let left = unregister m id in
      ((i : ℕ) → get i left.connections ≡ (if i == id then none else get i m.connections))
      × ((u : Str) → filed left.user_index u id ≡ false)
      × ((t : Str) → filed left.tenant_index t id ≡ false)
      × ((c : Str) → filed left.channel_index c id ≡ false)
  unregister_lem =
      let w = unregister-IsValid m id v in
      let gone = get-unregister m id id in
      (
        get-unregister m id,
        λ u. ground (arith, w.user_filed u id),
        λ t. ground (arith, w.tenant_filed t id),
        λ c. ground (arith, w.channel_filed c id),
      )

  pub listens-filed : (c : Str) (i : ℕ) → listens m c i ≡ filed m.channel_index c i
  listens-filed c i = ap (contains i) (ids-get_channel_connections m v c)

module _ (m : ConnectionManager) (id : ℕ) (channel : Str) (v : IsValid m) where
  filed-unsubscribe :
      (c : Str) (i : ℕ)
      → filed (unsubscribe_from_channel m id channel).channel_index c i
        ≡ (not (c == channel && i == id) && filed m.channel_index c i)
  unfolding unsubscribe_from_channel drop_subscription
  filed-unsubscribe c i = elim (Option-cases (get id m.connections)) [
    | inl e ↦ rw (e, unsubscribe_from_channel) (ground (arith, v.channel_filed c i))
    | inr (h, e) ↦
        rw (e, unsubscribe_from_channel, drop_subscription)
          (filed-index_remove channel c id i m.channel_index)
  ]

  -- After `unsubscribe_from_channel` the channel's lookup no longer returns the connection, and every
  -- other pair of a channel and a connection is as before.
  pub listens-unsubscribe_from_channel :
      (c : Str) (i : ℕ)
      → listens (unsubscribe_from_channel m id channel) c i
        ≡ (not (c == channel && i == id) && listens m c i)
  listens-unsubscribe_from_channel c i = ground (
    arith,
    listens-filed m id v c i,
    listens-filed (unsubscribe_from_channel m id channel) id
        (unsubscribe_from_channel-IsValid m id channel v) c i,
    filed-unsubscribe c i,
  )

  subscribe_refused :
      {h : ConnectionHandle}
      → get id m.connections ≡ some h
      → 0 < m.limits.max_subscriptions_per_connection
      → m.limits.max_subscriptions_per_connection ≤ length h.subscriptions
      → subscribe_to_channel m id channel ≡ (
        m,
        err (
            subscription_limit_exceeded
              (length h.subscriptions)
              m.limits.max_subscriptions_per_connection),
      )
  unfolding subscribe_to_channel subscribe_handle
  subscribe_refused e pos full = rw (e, subscribe_to_channel) (ground arith)

  subscribe_done :
      {h : ConnectionHandle}
      → get id m.connections ≡ some h
      → Within m.limits.max_subscriptions_per_connection (length h.subscriptions + 1)
      → subscribe_to_channel m id channel ≡ (add_subscription m id h channel, ok tt)
  unfolding subscribe_to_channel subscribe_handle
  subscribe_done e room = rw (e, subscribe_to_channel) (ground arith)

  listens-subscribe :
      {h : ConnectionHandle}
      → get id m.connections ≡ some h
      → Within m.limits.max_subscriptions_per_connection (length h.subscriptions + 1)
      → (c : Str) (i : ℕ)
      → listens (subscribe_to_channel m id channel).0 c i
        ≡ ((c == channel && i == id) || listens m c i)
  unfolding add_subscription
  listens-subscribe {h} e room c i = ground (
    arith,
    listens-filed m id v c i,
    listens-filed (subscribe_to_channel m id channel).0 id
        (subscribe_to_channel-IsValid m id channel v) c i,
    subscribe_done e room,
    filed-index_insert channel c id i m.channel_index,
  )

  -- The three ways in which a subscription ends: the connection is unknown, or at its limit, and
  -- nothing changes; or the channel's lookup returns the connection from now on, and every other pair
  -- of a channel and a connection is as before.
  abbrev pub SubscribeOutcome : Type 0
  SubscribeOutcome =
      let out = subscribe_to_channel m id channel in
      let most = m.limits.max_subscriptions_per_connection in
      ((get id m.connections ≡ none) × (out ≡ (m, err connection_not_found)))
      ⊎ ((h : ConnectionHandle) × (get id m.connections ≡ some h)
          × (((0 < most)
                × (most ≤ length h.subscriptions)
                × (out ≡ (m, err (subscription_limit_exceeded (length h.subscriptions) most))))
              ⊎ (Within most (length h.subscriptions + 1)
                  × (out.1 ≡ ok tt)
                  × ((c : Str) (i : ℕ)
                      → listens out.0 c i ≡ ((c == channel && i == id) || listens m c i)))))

  -- A subscription ends in one of the three ways of `SubscribeOutcome`: refused as unknown, refused at
  -- the limit, both with nothing changed, or made, with this one pair added to what lookups return.
  pub subscribe_to_channel_lem : SubscribeOutcome
  subscribe_to_channel_lem = elim (Option-cases (get id m.connections)) [
    | inl e ↦ inl (e, unfold subscribe_to_channel in rw (e, subscribe_to_channel))
    | inr (h, e) ↦ inr (
      h,
      e,
      elim (full_or_room h) [
        | inl (pos, full) ↦ inl (pos, full, subscribe_refused e pos full)
        | inr room ↦ inr (room, ap (λ r. r.1) (subscribe_done e room), listens-subscribe e room)
      ],
    )
  ]
    where
      full_or_room :
          (h : ConnectionHandle)
          → ((0 < m.limits.max_subscriptions_per_connection)
              × (m.limits.max_subscriptions_per_connection ≤ length h.subscriptions))
            ⊎ Within m.limits.max_subscriptions_per_connection (length h.subscriptions + 1)
      full_or_room h = grind arith
