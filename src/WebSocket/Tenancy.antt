-- ===== src/WebSocket/Tenancy.antt =====
-- The steps of a server, as far as connections go (src/domain/realtime/websocket/handler.rs), and what
-- each of them does to the tenants of the connections.
use mathlib.Core.Path.{subst}
use ara_notification_service.Common.{
  ℕ, ◌≡◌, ◌⊎◌, refl, sym, ◌∙◌, ap, inl, inr, arith, Bool, true, false, Bool-cases, if◌then◌else◌,
  Option, none, some, List, [], ◌∷◌, Str, str_key, nat_key, get, get-insert, contains,
  contains-set_insert, contains-set_remove, ◌==◌, ==_iff,
}
use ara_notification_service.Connection.Types.{ConnectionHandle, ConnectionManager, new_handle}
use ara_notification_service.Connection.Manager.{
  register, register_with_limits, add_connection, unregister,
}
use ara_notification_service.Connection.Queries.{
  cleanup_stale_connections, find_stale_connections, unregister_all,
}
use ara_notification_service.Connection.Stale.{get-unregister, cleanup_stale_connections-IsValid}
use ara_notification_service.Connection.Valid.{IsValid}
use ara_notification_service.Connection.Invariant.{unregister-IsValid}
use ara_notification_service.Tenant.Context.{namespace_channel}
use ara_notification_service.Tenant.Isolation.{IsPlain}
use ara_notification_service.Tenant.Manager.{TenantManager, create_context}
use ara_notification_service.Queue.Models.{StoredMessage}
use ara_notification_service.WebSocket.Message.{ServerMessage}
use ara_notification_service.WebSocket.Handler.{
  Outside, AppState, Message, process_message, registry,
}
use ara_notification_service.WebSocket.Session.{Claims, open_socket, close_socket, tenant_id}
use ara_notification_service.WebSocket.Keeping.{
  Everywhere, ParsesUtf8, Stable, process_message-Everywhere, process_message-tenant_manager,
}
use ara_notification_service.WebSocket.Opening.{open_socket-registry}
use ara_notification_service.WebSocket.Valid.{open_socket-IsValid, process_message-IsValid}

-- A step of the server, as far as connections go.
pub data Event : Type 0 where
  opens : ℕ → (StoredMessage → ℕ) → ℕ → ℕ → Claims → List ServerMessage → Event
  receives : ℕ → ConnectionHandle → Message → Event
  closes : ℕ → Event
  sweeps : ℕ → ℕ → Event

unfoldable pub step : Outside → AppState → Event → AppState
unfolding open_socket process_message close_socket cleanup_stale_connections
step w s (opens now clock id sender claims others) =
    (open_socket w now clock id sender claims others s).0
step w s (receives now handle msg) = (process_message w now msg s handle).0
step w s (closes id) = (close_socket s id).0
step w s (sweeps now timeout_secs) =
    registry s (cleanup_stale_connections w.chrono now s.connection_manager timeout_secs).0

abbrev pub OfTenant : Str → Option ConnectionHandle → Type 0
OfTenant t none = Unit
OfTenant t (some h) = h.tenant_id ≡ t

-- `Uuid::new_v4` draws an identifier that no connection has, and the handle of a receiving task
-- carries the tenant under which its connection is registered, if it still is.
abbrev pub Fits : AppState → Event → Type 0
Fits s (opens now clock id sender claims others) = get id s.connection_manager.connections ≡ none
Fits s (receives now handle msg) =
    OfTenant handle.tenant_id (get handle.id s.connection_manager.connections)
Fits s (closes id) = Unit
Fits s (sweeps now timeout_secs) = Unit

pub data Reachable (w : Outside) (initial : AppState) : AppState → Type 0 where
  start : Reachable w initial initial
  next :
      {s : AppState} (e : Event)
      → Fits s e
      → Reachable w initial s
      → Reachable w initial (step w s e)

-- Every subscription of the connection is a channel of its own tenant's context, with a plain name.
abbrev pub Owned : TenantManager → Option ConnectionHandle → Type 0
Owned tm none = Unit
Owned tm (some h) =
    (c : Str)
    → contains c h.subscriptions ≡ true
    → (name : Str) × IsPlain name × (c ≡ namespace_channel (create_context tm h.tenant_id) name)

module _ (tm : TenantManager) where
  -- A removal leaves what held.
  if-Owned :
      (b : Bool) (o : Option ConnectionHandle) → Owned tm o → Owned tm (if b then none else o)
  if-Owned true o k = tt
  if-Owned false o k = k

  unregister-Owned :
      (m : ConnectionManager) (id : ℕ)
      → Everywhere (λ i. Owned tm) m
      → Everywhere (λ i. Owned tm) (unregister m id)
  unregister-Owned m id all i =
      subst (Owned tm) (sym (get-unregister m id i)) (if-Owned (i == id) _ (all i))

  unregister_all-Owned :
      (is : List ℕ) (m : ConnectionManager)
      → Everywhere (λ i. Owned tm) m
      → Everywhere (λ i. Owned tm) (unregister_all m is)
  unfolding unregister_all
  unregister_all-Owned [] m all = all
  unregister_all-Owned (j ∷ is) m all =
      unregister_all-Owned is (unregister m j) (unregister-Owned m j all)

  -- Owned subscriptions, and the tenant of the handle at its connection, survive a message.
  Owned-Stable :
      (handle : ConnectionHandle)
      → Stable
          (λ i o. Owned tm o × (i ≡ handle.id → OfTenant handle.tenant_id o))
          handle.id
          (create_context tm handle.tenant_id)
  Owned-Stable handle = record {
    added = λ h name plain (o, of). (
      λ c here.
          elim (Bool-cases (c == namespace_channel (create_context tm handle.tenant_id) name)) [
            | inl e ↦ (
              name,
              plain,
              (==_iff c _).0 e
                  ∙ ap (λ x. namespace_channel (create_context tm x) name) (sym (of refl)),
            )
            | inr e ↦ o c (
                ground (
                  arith,
                  contains-set_insert (namespace_channel (create_context tm handle.tenant_id) name)
                      c h.subscriptions,
                ))
          ],
      of,
    );
    removed = λ h ch (o, of).
        (λ c here. o c (ground (arith, contains-set_remove ch c h.subscriptions)), of);
    seen = λ h at k. k;
  }

  if-new-Owned :
      (b : Bool) (h : ConnectionHandle) (o : Option ConnectionHandle)
      → Owned tm (some h)
      → Owned tm o
      → Owned tm (if b then some h else o)
  if-new-Owned true h o new old = new
  if-new-Owned false h o new old = old

  register-cases :
      (w : Outside) (now id : ℕ) (m : ConnectionManager) (user t : Str) (roles : List Str)
      (sender : ℕ)
      → let out = (register w.chrono now id m user t roles sender).0 in
        (out ≡ m) ⊎ (out ≡ add_connection m (new_handle w.chrono now id user t roles sender))
  unfolding register register_with_limits
  register-cases w now id m user t roles sender = ground arith

  register-Owned :
      (w : Outside) (now id : ℕ) (m : ConnectionManager) (user t : Str) (roles : List Str)
      (sender : ℕ)
      → Everywhere (λ i. Owned tm) m
      → Everywhere (λ i. Owned tm) (register w.chrono now id m user t roles sender).0
  unfolding add_connection new_handle contains
  register-Owned w now id m user t roles sender all =
      elim (register-cases w now id m user t roles sender) [
        | inl e ↦ rw e all
        | inr e ↦ rw e (λ i.
            subst (Owned tm) (sym (get-insert i id _ m.connections))
              (if-new-Owned (i == id) _ _ (λ c here. absurd (ground arith)) (all i)))
      ]

-- The tenants are those at the start, every connection has channels of its own tenant only, and the
-- registry and its indexes agree.
abbrev pub Isolated : TenantManager → AppState → Type 0
Isolated tm s =
    (s.tenant_manager ≡ tm)
    × Everywhere (λ i. Owned tm) s.connection_manager
    × IsValid s.connection_manager

module _ (w : Outside) (reads : ParsesUtf8 w) (tm : TenantManager) where
  receives-Isolated :
      (now : ℕ) (handle : ConnectionHandle) (msg : Message) (s : AppState)
      → OfTenant handle.tenant_id (get handle.id s.connection_manager.connections)
      → Isolated tm s
      → Isolated tm (process_message w now msg s handle).0
  receives-Isolated now handle msg s of (same, all, v) = (
    process_message-tenant_manager w now msg s handle ∙ same,
    λ i.
        (process_message-Everywhere w reads _ tm handle (Owned-Stable tm handle) now msg s same
          (λ i. (
            all i,
            λ e.
                subst (λ j. OfTenant handle.tenant_id (get j s.connection_manager.connections))
                  (sym e) of,
          ))
          i).0,
    process_message-IsValid w now msg s handle v,
  )

  step-Isolated : (s : AppState) (e : Event) → Fits s e → Isolated tm s → Isolated tm (step w s e)
  unfolding step close_socket
  step-Isolated s (opens now clock id sender claims others) f (same, all, v) =
      let (opened, tenants) = open_socket-registry w now clock id sender claims others s in
      (
        tenants ∙ same,
        subst (Everywhere (λ i. Owned tm)) (sym opened) (
            register-Owned tm w now id s.connection_manager claims.sub (tenant_id claims)
              claims.roles sender all),
        open_socket-IsValid w now clock id sender claims others s f v,
      )
  step-Isolated s (receives now handle msg) f v = receives-Isolated now handle msg s f v
  step-Isolated s (closes id) f (same, all, v) = (
    same,
    unregister-Owned tm s.connection_manager id all,
    unregister-IsValid s.connection_manager id v,
  )
  step-Isolated s (sweeps now timeout_secs) f (same, all, v) = (
    same,
    unregister_all-Owned tm (find_stale_connections w.chrono now s.connection_manager timeout_secs)
        s.connection_manager all,
    cleanup_stale_connections-IsValid w.chrono now timeout_secs s.connection_manager v,
  )

  pub Reachable-Isolated :
      {initial s : AppState} → Isolated tm initial → Reachable w initial s → Isolated tm s
  Reachable-Isolated v start = v
  Reachable-Isolated v (next {s} e f r) = step-Isolated s e f (Reachable-Isolated v r)
