-- ===== src/Connection/Lookup.antt =====
-- What the lookups by user, tenant and channel return.
use mathlib.Core.Path.{subst}
use ara_notification_service.Common.{
  ℕ, ◌≡◌, refl, sym, ◌∙◌, ap, inl, inr, Bool, true, Option, none, some, is_some, List, [], ◌∷◌,
  contains, Str, nat_key, str_key, HashMap, get, members, IsUnique, arith, Option-cases,
  members-IsUnique,
}
use ara_notification_service.Connection.Types.{ConnectionHandle, ConnectionManager}
use ara_notification_service.Connection.Queries.{
  lookup_all, get_user_connections, get_channel_connections, get_tenant_connections,
}
use ara_notification_service.Connection.Valid.{IsValid, HandleOk, of_user, of_tenant, of_channel}

abbrev pub ids : List ConnectionHandle → List ℕ
ids [] = []
ids (h ∷ hs) = h.id ∷ ids hs

-- Every handle of the list is the one stored under its identifier.
abbrev pub AllStored : HashMap ℕ ConnectionHandle → List ConnectionHandle → Type 0
AllStored conns [] = Unit
AllStored conns (h ∷ hs) = (get h.id conns ≡ some h) × AllStored conns hs

module _ (conns : HashMap ℕ ConnectionHandle) (ok : (i : ℕ) → HandleOk i (get i conns)) where
  -- Where every identifier is that of a connection, the lookup loses none and keeps the order.
  ids-lookup_all :
      (is : List ℕ)
      → ((i : ℕ) → contains i is ≡ true → is_some (get i conns) ≡ true)
      → ids (lookup_all conns is) ≡ is
  unfolding lookup_all contains
  ids-lookup_all [] all = refl
  ids-lookup_all (i ∷ is) all = elim (Option-cases (get i conns)) [
    | inl e ↦ absurd (ground (arith, all i))
    | inr (h, e) ↦
        ground (arith, ids-lookup_all is (λ j p. all j (ground arith)), subst (HandleOk i) e (ok i))
  ]

  lookup_all-AllStored : (is : List ℕ) → AllStored conns (lookup_all conns is)
  unfolding lookup_all
  lookup_all-AllStored [] = tt
  lookup_all-AllStored (i ∷ is) = elim (Option-cases (get i conns)) [
    | inl e ↦ rw (e, lookup_all) (lookup_all-AllStored is)
    | inr (h, e) ↦
        let same = (subst (HandleOk i) e (ok i)).0 in
        rw (e, lookup_all) (cc, lookup_all-AllStored is)
  ]

-- The handles that a lookup returns are the stored handles of the connections that belong to the
-- key, each once.
pub record Exact (m : ConnectionManager) (belongs : Option ConnectionHandle → Bool)
    (hs : List ConnectionHandle) : Type 0 where
  pub complete : (i : ℕ) → contains i (ids hs) ≡ belongs (get i m.connections)
  pub once : IsUnique (ids hs)
  pub stored : AllStored m.connections hs

module _ (m : ConnectionManager) (v : IsValid m) where
  of_user-is_some : (u : Str) (o : Option ConnectionHandle) → of_user u o ≡ true → is_some o ≡ true
  of_user-is_some u none h = h
  of_user-is_some u (some a) h = refl

  of_tenant-is_some :
      (u : Str) (o : Option ConnectionHandle) → of_tenant u o ≡ true → is_some o ≡ true
  of_tenant-is_some u none h = h
  of_tenant-is_some u (some a) h = refl

  of_channel-is_some :
      (u : Str) (o : Option ConnectionHandle) → of_channel u o ≡ true → is_some o ≡ true
  of_channel-is_some u none h = h
  of_channel-is_some u (some a) h = refl

  pub ids-get_user_connections : (u : Str) → ids (get_user_connections m u) ≡ members u m.user_index
  unfolding get_user_connections
  ids-get_user_connections u =
      ids-lookup_all m.connections v.handles (members u m.user_index)
        (λ i p. of_user-is_some u _ (sym (v.user_filed u i) ∙ p))

  pub ids-get_tenant_connections :
      (t : Str) → ids (get_tenant_connections m t) ≡ members t m.tenant_index
  unfolding get_tenant_connections
  ids-get_tenant_connections u =
      ids-lookup_all m.connections v.handles (members u m.tenant_index)
        (λ i p. of_tenant-is_some u _ (sym (v.tenant_filed u i) ∙ p))

  pub ids-get_channel_connections :
      (c : Str) → ids (get_channel_connections m c) ≡ members c m.channel_index
  unfolding get_channel_connections
  ids-get_channel_connections u =
      ids-lookup_all m.connections v.handles (members u m.channel_index)
        (λ i p. of_channel-is_some u _ (sym (v.channel_filed u i) ∙ p))

  -- The lookup by user in a valid registry returns the stored handle of every connection that
  -- belongs to the user, each once, and no other.
  pub get_user_connections-Exact : (u : Str) → Exact m (of_user u) (get_user_connections m u)
  unfolding get_user_connections
  get_user_connections-Exact u = record {
    complete = λ i. ap (contains i) (ids-get_user_connections u) ∙ v.user_filed u i;
    once =
        subst IsUnique (sym (ids-get_user_connections u)) (members-IsUnique u m.user_index v.users);
    stored = lookup_all-AllStored m.connections v.handles (members u m.user_index);
  }

  -- The lookup by tenant in a valid registry returns the stored handle of every connection that
  -- belongs to the tenant, each once, and no other.
  pub get_tenant_connections-Exact : (t : Str) → Exact m (of_tenant t) (get_tenant_connections m t)
  unfolding get_tenant_connections
  get_tenant_connections-Exact u = record {
    complete = λ i. ap (contains i) (ids-get_tenant_connections u) ∙ v.tenant_filed u i;
    once =
        subst IsUnique (sym (ids-get_tenant_connections u))
          (members-IsUnique u m.tenant_index v.tenants);
    stored = lookup_all-AllStored m.connections v.handles (members u m.tenant_index);
  }

  -- The lookup by channel in a valid registry returns the stored handle of every connection that
  -- is subscribed to the channel, each once, and no other.
  pub get_channel_connections-Exact :
      (c : Str) → Exact m (of_channel c) (get_channel_connections m c)
  unfolding get_channel_connections
  get_channel_connections-Exact u = record {
    complete = λ i. ap (contains i) (ids-get_channel_connections u) ∙ v.channel_filed u i;
    once =
        subst IsUnique (sym (ids-get_channel_connections u))
          (members-IsUnique u m.channel_index v.channels);
    stored = lookup_all-AllStored m.connections v.handles (members u m.channel_index);
  }

  -- In a valid registry, the lookups by user, by tenant and by channel each return the stored handle of
  -- every connection that belongs to the user, belongs to the tenant, or is subscribed to the channel,
  -- once each, and no other.
  pub lookups-Exact :
      (u t c : Str)
      → Exact m (of_user u) (get_user_connections m u)
        × Exact m (of_tenant t) (get_tenant_connections m t)
        × Exact m (of_channel c) (get_channel_connections m c)
  lookups-Exact u t c = (
    get_user_connections-Exact u,
    get_tenant_connections-Exact t,
    get_channel_connections-Exact c,
  )
