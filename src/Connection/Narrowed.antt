-- ===== src/Connection/Narrowed.antt =====
-- The connections of a lookup that pass a test as well, such as that of the tenant.
use ara_notification_service.Common.{
  ℕ, ◌≡◌, refl, ◌∙◌, ap, Bool, Option, none, some, List, [], ◌∷◌, contains, ◌&&◌, false, retain,
  ==_iff, ◌==◌, Str, nat_key, str_key, get, IsUnique, arith,
}
use ara_notification_service.Connection.Types.{ConnectionHandle, ConnectionManager}
use ara_notification_service.Connection.Queries.{get_user_connections}
use ara_notification_service.Connection.Valid.{IsValid, of_user, of_tenant}
use ara_notification_service.Connection.Lookup.{ids, AllStored, Exact, get_user_connections-Exact}

-- What a test leaves of a list that is exact for a key is exact for those that pass the test as well.
module _ (m : ConnectionManager) (belongs : Option ConnectionHandle → Bool)
    (p : ConnectionHandle → Bool) where
  -- Is there a connection, and does it pass the test?
  abbrev pub passes : Option ConnectionHandle → Bool
  passes none = false
  passes (some h) = p h

  contains-retain-ids :
      (i : ℕ) (hs : List ConnectionHandle)
      → AllStored m.connections hs
      → contains i (ids (retain p hs)) ≡ (contains i (ids hs) && passes (get i m.connections))
  unfolding contains retain
  contains-retain-ids i [] all = refl
  contains-retain-ids i (h ∷ hs) (found, all) =
      ground (arith, contains-retain-ids i hs all, ==_iff i h.id, found)

  retain-AllStored :
      (hs : List ConnectionHandle)
      → AllStored m.connections hs
      → AllStored m.connections (retain p hs)
  unfolding retain
  retain-AllStored [] all = tt
  retain-AllStored (h ∷ hs) (found, all) = ground (arith, retain-AllStored hs all)

  ids-retain-IsUnique :
      (hs : List ConnectionHandle)
      → AllStored m.connections hs
      → IsUnique (ids hs)
      → IsUnique (ids (retain p hs))
  unfolding retain
  ids-retain-IsUnique [] all u = tt
  ids-retain-IsUnique (h ∷ hs) (found, all) u =
      ground (arith, ids-retain-IsUnique hs all u.1, contains-retain-ids h.id hs all)

  pub retain-Exact :
      (hs : List ConnectionHandle)
      → Exact m belongs hs
      → Exact m (λ o. belongs o && passes o) (retain p hs)
  retain-Exact hs e = record {
    complete = λ i.
        contains-retain-ids i hs e.stored
        ∙ ap (λ b. b && passes (get i m.connections)) (e.complete i);
    once = ids-retain-IsUnique hs e.stored e.once;
    stored = retain-AllStored hs e.stored;
  }

  -- Where nobody belongs, the list is empty.
  pub Exact-empty :
      (hs : List ConnectionHandle)
      → Exact m belongs hs
      → ((i : ℕ) → belongs (get i m.connections) ≡ false)
      → hs ≡ []
  unfolding contains
  Exact-empty [] e nobody = refl
  Exact-empty (h ∷ hs) e nobody = ground (arith, e.complete h.id, nobody h.id)

-- Is there a connection of the user in the tenant?
abbrev pub of_user_in : Str → Str → Option ConnectionHandle → Bool
of_user_in u t o = of_user u o && of_tenant t o

-- The connections of a user that are left when those of other tenants are taken out.
pub user_in_tenant-Exact :
    (m : ConnectionManager)
    → IsValid m
    → (u t : Str)
    → Exact m (of_user_in u t) (retain (λ h. h.tenant_id == t) (get_user_connections m u))
user_in_tenant-Exact m v u t =
    let e =
      retain-Exact m (of_user u) (λ h. h.tenant_id == t) (get_user_connections m u)
        (get_user_connections-Exact m v u) in
    record {
      complete = λ i.
          e.complete i
          ∙ ap (λ b. of_user u (get i m.connections) && b) (same (get i m.connections));
      once = e.once;
      stored = e.stored;
    }
  where
    same :
        (o : Option ConnectionHandle)
        → passes m (of_user u) (λ h. h.tenant_id == t) o ≡ of_tenant t o
    same none = refl
    same (some h) = ground (arith, ==_iff h.tenant_id t, ==_iff t h.tenant_id)
