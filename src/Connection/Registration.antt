-- ===== src/Connection/Registration.antt =====
-- What a registration changes, as later lookups see it.
use mathlib.Core.Path.{subst}
use ara_notification_service.Common.{
  ℕ, ◌+◌, ◌≤◌, ◌<◌, ◌≡◌, ◌⊎◌, refl, sym, ◌∙◌, ap, inl, inr, ◌&&◌, ◌||◌, if◌then◌else◌, none, some,
  List, [], ◌∷◌, length, Str, nat_key, str_key, ◌==◌, get, contains, arith, ok, err, Chrono,
  get-insert, length-members-index_push, ==_iff,
}
use ara_notification_service.Connection.Types.{
  ConnectionHandle, ConnectionManager, new_handle, total_limit_exceeded, user_limit_exceeded,
}
use ara_notification_service.Connection.Manager.{add_connection, register, user_conn_count}
use ara_notification_service.Connection.Queries.{
  get_user_connections, get_tenant_connections, get_channel_connections,
}
use ara_notification_service.Connection.Valid.{IsValid}
use ara_notification_service.Connection.Invariant.{add_connection-IsValid}
use ara_notification_service.Connection.Limits.{Within, register-cases}
use ara_notification_service.Connection.Lookup.{
  ids, ids-get_user_connections, get_user_connections-Exact, get_tenant_connections-Exact,
  get_channel_connections-Exact,
}

length-ids : (hs : List ConnectionHandle) → length (ids hs) ≡ length hs
length-ids [] = refl
length-ids (h ∷ hs) = omega (arith, length-ids hs)

-- The lookup by user returns as many connections as the limit for a user counts.
length-get_user_connections :
    (m : ConnectionManager) (v : IsValid m) (u : Str)
    → length (get_user_connections m u) ≡ user_conn_count m u
length-get_user_connections m v u =
    sym (length-ids (get_user_connections m u)) ∙ ap length (ids-get_user_connections m v u)

-- Between the registries a new connection has come: it is stored under its identifier with every other
-- as before, the lookups by its user and by its tenant return it from now on, that by user returns one
-- more, and apart from this all lookups return the connections that they did.
pub record Joined (m n : ConnectionManager) (h : ConnectionHandle) : Type 0 where
  pub valid : IsValid n
  pub stored : (i : ℕ) → get i n.connections ≡ (if i == h.id then some h else get i m.connections)
  pub one_more :
      length (get_user_connections n h.user_id) ≡ length (get_user_connections m h.user_id) + 1
  pub by_user :
      (u : Str) (i : ℕ)
      → contains i (ids (get_user_connections n u))
        ≡ ((u == h.user_id && i == h.id) || contains i (ids (get_user_connections m u)))
  pub by_tenant :
      (t : Str) (i : ℕ)
      → contains i (ids (get_tenant_connections n t))
        ≡ ((t == h.tenant_id && i == h.id) || contains i (ids (get_tenant_connections m t)))
  pub by_channel :
      (ch : Str) (i : ℕ)
      → contains i (ids (get_channel_connections n ch))
        ≡ contains i (ids (get_channel_connections m ch))

module _ (m : ConnectionManager) (h : ConnectionHandle) (v : IsValid m)
    (fresh : get h.id m.connections ≡ none) (silent : h.subscriptions ≡ []) where
  joined-IsValid : IsValid (add_connection m h)
  joined-IsValid = add_connection-IsValid m h v fresh silent

  get-add_connection :
      (i : ℕ)
      → get i (add_connection m h).connections ≡ (if i == h.id then some h else get i m.connections)
  unfolding add_connection
  get-add_connection i = get-insert i h.id h m.connections

  user_conn_count-add_connection :
      user_conn_count (add_connection m h) h.user_id ≡ user_conn_count m h.user_id + 1
  unfolding add_connection
  user_conn_count-add_connection =
      ground (arith, length-members-index_push h.user_id h.user_id h.id m.user_index)

  add_connection-Joined : Joined m (add_connection m h) h
  unfolding contains
  add_connection-Joined = record {
    valid = joined-IsValid;
    stored = get-add_connection;
    one_more = omega (
      arith,
      length-get_user_connections m v h.user_id,
      length-get_user_connections (add_connection m h) joined-IsValid h.user_id,
      user_conn_count-add_connection,
    );
    by_user = λ u i. ground (
      arith,
      (get_user_connections-Exact m v u).complete i,
      (get_user_connections-Exact (add_connection m h) joined-IsValid u).complete i,
      get-add_connection i,
      ==_iff i h.id,
    );
    by_tenant = λ t i. ground (
      arith,
      (get_tenant_connections-Exact m v t).complete i,
      (get_tenant_connections-Exact (add_connection m h) joined-IsValid t).complete i,
      get-add_connection i,
      ==_iff i h.id,
    );
    by_channel = λ ch i. ground (
      arith,
      (get_channel_connections-Exact m v ch).complete i,
      (get_channel_connections-Exact (add_connection m h) joined-IsValid ch).complete i,
      get-add_connection i,
      ==_iff i h.id,
    );
  }

-- The three ways in which a registration ends. If the registry is full it is refused for that; else
-- if the lookup by user returns as many connections as a user may have it is refused for that; either
-- refusal changes nothing. Else it succeeds with the new handle, whose connection has joined.
abbrev pub RegisterOutcome : Chrono → ℕ → ℕ → ConnectionManager → Str → Str → List Str → ℕ → Type 0
RegisterOutcome c now id m user_id tenant_id roles sender =
    let total = length m.connections in
    let current = length (get_user_connections m user_id) in
    let most = m.limits.max_connections in
    let most_per_user = m.limits.max_connections_per_user in
    let new = new_handle c now id user_id tenant_id roles sender in
    let out = register c now id m user_id tenant_id roles sender in
    ((0 < most) × (most ≤ total) × (out ≡ (m, err (total_limit_exceeded total most))))
    ⊎ (Within most (total + 1)
        × (0 < most_per_user)
        × (most_per_user ≤ current)
        × (out ≡ (m, err (user_limit_exceeded user_id current most_per_user))))
    ⊎ (Within most (total + 1)
        × Within most_per_user (current + 1)
        × (out.1 ≡ ok new)
        × Joined m out.0 new)

-- A registration in a valid registry under an identifier that no connection has ends in one of the
-- three ways of `RegisterOutcome`: refused for the total, or refused for the connections that the
-- lookup by user returns, both with nothing changed; or accepted: the connection is stored, the lookups
-- by its user and its tenant return it from now on, that by user returns one connection more, and all
-- other connections and lookups are as before, in a registry that is valid again.
pub register_outcome :
    (c : Chrono) (now id : ℕ) (m : ConnectionManager) (user_id tenant_id : Str) (roles : List Str)
    (sender : ℕ)
    → IsValid m
    → get id m.connections ≡ none
    → RegisterOutcome c now id m user_id tenant_id roles sender
unfolding new_handle
register_outcome c now id m user_id tenant_id roles sender v fresh =
    let same = length-get_user_connections m v user_id in
    let new = new_handle c now id user_id tenant_id roles sender in
    elim (register-cases c now id m user_id tenant_id roles sender) [
      | inl full ↦ inl full
      | inr (inl (room, some_limit, reached, out)) ↦
          inr (inl (room, some_limit, ground arith, ground arith))
      | inr (inr (room, room_for_user, out)) ↦ inr (
          inr (
            room,
            ground arith,
            ap (λ o. o.1) out,
            subst (λ o. Joined m o.0 new) (sym out) (add_connection-Joined m new v fresh refl),
          ))
    ]
