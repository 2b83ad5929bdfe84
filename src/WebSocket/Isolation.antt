-- ===== src/WebSocket/Isolation.antt =====
-- The connections of all tenants through any sequence of openings, messages, closings and sweeps, in
-- any interleaving.
use mathlib.Core.Path.{subst}
use ara_notification_service.Common.{
  ℕ, ◌≡◌, refl, sym, ◌∙◌, ap, arith, true, some, Str, str_key, nat_key, get, contains,
}
use ara_notification_service.Connection.Types.{
  ConnectionHandle, ConnectionLimits, ConnectionManager,
}
use ara_notification_service.Connection.Manager.{with_limits}
use ara_notification_service.Connection.Valid.{IsValid}
use ara_notification_service.Connection.Invariant.{with_limits-IsValid}
use ara_notification_service.Connection.Effects.{listens, listens-filed}
use ara_notification_service.Tenant.Context.{namespace_channel}
use ara_notification_service.Tenant.Context
use ara_notification_service.Tenant.Isolation.{namespace_channel-injective}
use ara_notification_service.Tenant.Manager.{TenantManager, create_context}
use ara_notification_service.WebSocket.Handler.{Outside, AppState}
use ara_notification_service.WebSocket.Keeping.{Everywhere, ParsesUtf8}
use ara_notification_service.WebSocket.Tenancy.{Isolated, Owned, Reachable, Reachable-Isolated}

-- A server on which no connection has been opened yet.
abbrev pub Starts : AppState → Type 0
Starts s = s.connection_manager ≡ with_limits s.connection_manager.limits

with_limits-Owned :
    (tm : TenantManager) (limits : ConnectionLimits)
    → Everywhere (λ i. Owned tm) (with_limits limits)
unfolding with_limits get
with_limits-Owned tm limits i = tt

Starts-Isolated : (s : AppState) → Starts s → Isolated s.tenant_manager s
Starts-Isolated s e = (
  refl,
  subst (Everywhere (λ i. Owned s.tenant_manager)) (sym e)
      (with_limits-Owned s.tenant_manager s.connection_manager.limits),
  subst IsValid (sym e) (with_limits-IsValid s.connection_manager.limits),
)

-- The handle found under the identifier holds the channel, where lookups of the channel return it.
listens-contains :
    (m : ConnectionManager) (v : IsValid m) (c : Str) (i : ℕ) (h : ConnectionHandle)
    → get i m.connections ≡ some h
    → listens m c i ≡ true
    → contains c h.subscriptions ≡ true
listens-contains m v c i h found l = ground (arith, listens-filed m i v c i, v.channel_filed c i)

create_context-enabled :
    (tm : TenantManager)
    → tm.config.enabled ≡ true
    → (t : Str) → create_context tm t ≡ Context.new t
unfolding create_context
create_context-enabled tm e t = rw e

-- Where multi-tenancy is enabled, two connections that the lookup of one channel returns belong to the
-- same tenant. This holds of every state that openings, messages, closings and sweeps lead to, in
-- any order and whatever the clients send, on a server that starts without connections, where every
-- identifier drawn is new and every text parsed is in UTF-8.
pub channel-one_tenant :
    (w : Outside) (initial : AppState) {s : AppState}
    → ParsesUtf8 w
    → Starts initial
    → initial.tenant_manager.config.enabled ≡ true
    → Reachable w initial s
    → (c : Str) (i j : ℕ) (h k : ConnectionHandle) → get i s.connection_manager.connections ≡ some h
    → get j s.connection_manager.connections ≡ some k
    → listens s.connection_manager c i ≡ true
    → listens s.connection_manager c j ≡ true
    → h.tenant_id ≡ k.tenant_id
channel-one_tenant w initial {s} reads starts enabled r c i j h k found_i found_j li lj =
    let (same, all, v) =
      Reachable-Isolated w reads initial.tenant_manager (Starts-Isolated initial starts) r in
    let (n, pn, en) =
      subst (Owned initial.tenant_manager) found_i (all i) c
        (listens-contains s.connection_manager v c i h found_i li) in
    let (o, po, eo) =
      subst (Owned initial.tenant_manager) found_j (all j) c
        (listens-contains s.connection_manager v c j k found_j lj) in
    let name_of = create_context-enabled initial.tenant_manager enabled in
    (namespace_channel-injective h.tenant_id k.tenant_id n o pn po (
      ap (λ t. namespace_channel t n) (sym (name_of h.tenant_id))
      ∙ sym en
      ∙ eo
      ∙ ap (λ t. namespace_channel t o) (name_of k.tenant_id))).0
