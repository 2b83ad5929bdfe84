-- ===== src/Connection/Stale.antt =====
-- The removal of stale connections.
use ara_notification_service.Common.{
  ℕ, ◌+◌, ◌≡◌, refl, sym, ◌∙◌, Bool, true, false, Option, none, some, is_some, List, [], ◌∷◌,
  length, contains, nat_key, str_key, HashMap, get, keys, IsUnique, ◌==◌, arith, if◌then◌else◌,
  Chrono, get-remove, contains-keys, length-remove,
}
use ara_notification_service.Connection.Types.{ConnectionHandle, ConnectionManager}
use ara_notification_service.Connection.Manager.{unregister, drop_connection}
use ara_notification_service.Connection.Queries.{
  is_stale, stale_ids, find_stale_connections, unregister_all, cleanup_stale_connections,
}
use ara_notification_service.Connection.Valid.{IsValid}
use ara_notification_service.Connection.Invariant.{unregister-IsValid}

-- After `unregister` only that connection is gone.
pub get-unregister :
    (m : ConnectionManager) (id i : ℕ)
    → get i (unregister m id).connections ≡ (if i == id then none else get i m.connections)
unfolding unregister drop_connection
get-unregister m id i = ground (arith, get-remove i id m.connections)

get-unregister_all :
    (is : List ℕ) (m : ConnectionManager) (i : ℕ)
    → get i (unregister_all m is).connections
      ≡ (if contains i is then none else get i m.connections)
unfolding unregister_all contains
get-unregister_all [] m i = refl
get-unregister_all (j ∷ is) m i =
    ground (arith, get-unregister_all is (unregister m j) i, get-unregister m j i)

pub unregister_all-IsValid :
    (is : List ℕ) (m : ConnectionManager) → IsValid m → IsValid (unregister_all m is)
unfolding unregister_all
unregister_all-IsValid [] m v = v
unregister_all-IsValid (j ∷ is) m v =
    unregister_all-IsValid is (unregister m j) (unregister-IsValid m j v)

-- Is there a connection, and has it been silent for longer than the timeout?
abbrev pub stale_at : Chrono → ℕ → ℕ → Option ConnectionHandle → Bool
stale_at c now timeout_secs none = false
stale_at c now timeout_secs (some h) = is_stale c now timeout_secs h

contains-stale_ids-le :
    (c : Chrono) (now timeout_secs i : ℕ) (conns : HashMap ℕ ConnectionHandle)
    → get i conns ≡ none
    → contains i (stale_ids c now timeout_secs conns) ≡ false
unfolding stale_ids contains get
contains-stale_ids-le c now t i [] h = refl
contains-stale_ids-le c now t i ((j, x) ∷ conns) h =
    ground (arith, contains-stale_ids-le c now t i conns)

contains-stale_ids :
    (c : Chrono) (now timeout_secs i : ℕ) (conns : HashMap ℕ ConnectionHandle)
    → IsUnique (keys conns)
    → contains i (stale_ids c now timeout_secs conns) ≡ stale_at c now timeout_secs (get i conns)
unfolding stale_ids contains get
contains-stale_ids c now t i [] u = refl
contains-stale_ids c now t i ((j, x) ∷ conns) u = ground (
  arith,
  contains-stale_ids c now t i conns,
  contains-stale_ids-le c now t i conns,
  contains-keys j conns,
)

length-unregister :
    (m : ConnectionManager) (id : ℕ)
    → IsValid m
    → is_some (get id m.connections) ≡ true
    → length (unregister m id).connections + 1 ≡ length m.connections
unfolding unregister drop_connection
length-unregister m id v here = ground (arith, length-remove id m.connections v.ids_unique)

length-unregister_all :
    (is : List ℕ) (m : ConnectionManager)
    → IsValid m
    → IsUnique is
    → ((i : ℕ) → contains i is ≡ true → is_some (get i m.connections) ≡ true)
    → length (unregister_all m is).connections + length is ≡ length m.connections
unfolding unregister_all contains
length-unregister_all [] m v u here = omega arith
length-unregister_all (j ∷ is) m v u here = omega (
  arith,
  length-unregister m j v (here j (ground arith)),
  length-unregister_all is (unregister m j) (unregister-IsValid m j v) u.1
      (λ i p. ground (arith, here i, get-unregister m j i)),
)

stale_ids-IsUnique :
    (c : Chrono) (now timeout_secs : ℕ) (conns : HashMap ℕ ConnectionHandle)
    → IsUnique (keys conns)
    → IsUnique (stale_ids c now timeout_secs conns)
unfolding stale_ids
stale_ids-IsUnique c now t [] u = tt
stale_ids-IsUnique c now t ((j, x) ∷ conns) u = ground (
  arith,
  stale_ids-IsUnique c now t conns,
  contains-stale_ids-le c now t j conns,
  contains-keys j conns,
)

module _ (c : Chrono) (now timeout_secs : ℕ) (m : ConnectionManager) (v : IsValid m) where
  -- The sweep removes the stale connections and no others.
  pub get-cleanup_stale_connections :
      (i : ℕ)
      → get i (cleanup_stale_connections c now m timeout_secs).0.connections
        ≡ (if stale_at c now timeout_secs (get i m.connections) then none else get i m.connections)
  unfolding cleanup_stale_connections
  get-cleanup_stale_connections i = ground (
    arith,
    get-unregister_all (find_stale_connections c now m timeout_secs) m i,
    contains-stale_ids c now timeout_secs i m.connections v.ids_unique,
  )

  pub cleanup_stale_connections-IsValid : IsValid (cleanup_stale_connections c now m timeout_secs).0
  unfolding cleanup_stale_connections
  cleanup_stale_connections-IsValid =
      unregister_all-IsValid (find_stale_connections c now m timeout_secs) m v

  -- A sweep removes exactly the connections that have been silent for longer than the timeout, counts
  -- them, and leaves a registry that satisfies the invariant.
  pub cleanup_stale_connections_lem :
      let (swept, removed) = cleanup_stale_connections c now m timeout_secs in
      ((i : ℕ)
        → get i swept.connections ≡ (
            if stale_at c now timeout_secs (get i m.connections)
            then none
            else get i m.connections))
      × (length swept.connections + removed ≡ length m.connections)
      × IsValid swept
  cleanup_stale_connections_lem = (
    get-cleanup_stale_connections,
    unfold cleanup_stale_connections find_stale_connections in
        length-unregister_all stale m v
          (stale_ids-IsUnique c now timeout_secs m.connections v.ids_unique)
          (λ i p.
            stale-is_some (get i m.connections)
              (sym (contains-stale_ids c now timeout_secs i m.connections v.ids_unique) ∙ p)),
    cleanup_stale_connections-IsValid,
  )
    where
      stale : List ℕ
      stale = stale_ids c now timeout_secs m.connections

      stale-is_some :
          (o : Option ConnectionHandle) → stale_at c now timeout_secs o ≡ true → is_some o ≡ true
      stale-is_some none e = e
      stale-is_some (some h) e = refl
