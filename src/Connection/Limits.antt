-- ===== src/Connection/Limits.antt =====
-- What `register` admits and refuses, and the connection limits.
use ara_notification_service.Common.{
  ℕ, ◌+◌, ◌≤◌, ◌<◌, ◌≡◌, ◌⊎◌, Option, none, some, List, length, Str, nat_key, str_key, get, arith,
  ok, err, Chrono, length-insert, length-members-index_push, get-insert,
}
use ara_notification_service.Connection.Types.{
  ConnectionHandle, ConnectionManager, new_handle, total_limit_exceeded, user_limit_exceeded,
}
use ara_notification_service.Connection.Manager.{add_connection, register, user_conn_count}

-- The number of a connection's subscriptions.
abbrev pub subscription_count : Option ConnectionHandle → ℕ
subscription_count none = 0
subscription_count (some h) = length h.subscriptions

-- A limit of 0 is no limit.
abbrev pub Within : ℕ → ℕ → Type 0
Within limit n = (limit ≡ 0) ⊎ (n ≤ limit)

pub record WithinLimits (m : ConnectionManager) : Type 0 where
  pub total : Within m.limits.max_connections (length m.connections)
  pub per_user : (u : Str) → Within m.limits.max_connections_per_user (user_conn_count m u)
  pub per_connection :
      (i : ℕ)
      → Within m.limits.max_subscriptions_per_connection (subscription_count (get i m.connections))

module _ (c : Chrono) (now id : ℕ) (m : ConnectionManager) (user_id tenant_id : Str)
    (roles : List Str) (sender : ℕ) where
  -- A registry within its limits stays within them.
  pub register-WithinLimits :
      get id m.connections ≡ none
      → WithinLimits m
      → WithinLimits (register c now id m user_id tenant_id roles sender).0
  unfolding register add_connection new_handle
  register-WithinLimits fresh w = record {
    total = ground (
      arith,
      w.total,
      length-insert id (new_handle c now id user_id tenant_id roles sender) m.connections,
    );
    per_user =
        λ u. ground (arith, w.per_user u, length-members-index_push user_id u id m.user_index);
    per_connection = λ i. ground (
      arith,
      w.per_connection i,
      get-insert i id (new_handle c now id user_id tenant_id roles sender) m.connections,
    );
  }

  pub limits-register : (register c now id m user_id tenant_id roles sender).0.limits ≡ m.limits
  unfolding register add_connection
  limits-register = ground arith

  abbrev pub newcomer : ConnectionHandle
  newcomer = new_handle c now id user_id tenant_id roles sender

  -- The branches of a registration, by the count that it reads off the index.
  pub register-cases :
      let total = length m.connections in
      let current = user_conn_count m user_id in
      let most = m.limits.max_connections in
      let most_per_user = m.limits.max_connections_per_user in
      let out = register c now id m user_id tenant_id roles sender in
      ((0 < most) × (most ≤ total) × (out ≡ (m, err (total_limit_exceeded total most))))
      ⊎ (Within most (total + 1)
          × (0 < most_per_user)
          × (most_per_user ≤ current)
          × (out ≡ (m, err (user_limit_exceeded user_id current most_per_user))))
      ⊎ (Within most (total + 1)
          × Within most_per_user (current + 1)
          × (out ≡ (add_connection m newcomer, ok newcomer)))
  unfolding register
  register-cases = ground arith
