-- ===== src/WebSocket/Keeping.antt =====
-- What a message of a client keeps of the registry: a property of every connection that holds on,
-- whatever the message does to the connection that it comes from, holds after the message.
use mathlib.Core.Path.{subst}
use ara_notification_service.Common.{
  IsUtf8, ℕ, ◌≡◌, ◌⊎◌, refl, sym, inl, inr, arith, Bool, true, false, Bool-cases, Option-cases,
  if◌then◌else◌, Option, some, List, [], ◌∷◌, Str, str_key, nat_key, get, insert, get-insert,
  HashMap, ◌==◌, ==_iff, set_insert, set_remove, Result, ok, err, ℤ,
}
use ara_notification_service.Connection.Types.{ConnectionHandle, ConnectionManager, update_activity}
use ara_notification_service.Connection.Manager.{
  subscribe_to_channel, subscribe_handle, add_subscription, unsubscribe_from_channel,
  drop_subscription, touch,
}
use ara_notification_service.Tenant.Context.{TenantContext, namespace_channel}
use ara_notification_service.Tenant.Isolation.{IsPlain}
use ara_notification_service.Tenant.Manager.{TenantManager, create_context}
use ara_notification_service.WebSocket.Message.{ClientMessage, subscribe, unsubscribe, ping, ack}
use ara_notification_service.WebSocket.Names.{is_valid_channel_name, is_valid_channel_name-IsPlain}
use ara_notification_service.WebSocket.Handler.{
  Outside, AppState, Subscribing, subscribe_one, subscribe_loop, handle_subscribe, unsubscribe_loop,
  handle_unsubscribe, handle_ack, handle_client_message, parsed, active, Message, text, binary,
  ping_frame, pong_frame, close, process_message,
}

-- The property at each identifier, for the handle stored there.
abbrev pub Everywhere : (ℕ → Option ConnectionHandle → Type 0) → ConnectionManager → Type 0
Everywhere P m = (i : ℕ) → P i (get i m.connections)

abbrev pub AllUtf8 : List Str → Type 0
AllUtf8 [] = Unit
AllUtf8 (s ∷ ss) = IsUtf8 s × AllUtf8 ss

-- Whatever the parser makes of a text, its strings are in UTF-8, as every `String` is.
abbrev pub ParsesUtf8 : Outside → Type 0
ParsesUtf8 w = (t : Str) (cs : List Str) → w.parse t ≡ ok (subscribe cs) → AllUtf8 cs

-- What the property has to survive at the connection: a channel of its context with a plain name is
-- added to its subscriptions, a channel is removed from them, or the time of its activity is set.
pub record Stable (P : ℕ → Option ConnectionHandle → Type 0) (id : ℕ) (t : TenantContext)
    : Type 0 where
  pub added :
      (h : ConnectionHandle) (name : Str)
      → IsPlain name
      → P id (some h)
      → P id (
          some (record h { subscriptions = set_insert (namespace_channel t name) h.subscriptions }))
  pub removed :
      (h : ConnectionHandle) (channel : Str)
      → P id (some h)
      → P id (some (record h { subscriptions = set_remove channel h.subscriptions }))
  pub seen :
      (h : ConnectionHandle) (at : ℤ)
      → P id (some h)
      → P id (some (record h { last_activity = at }))

subscribe_handle-cases :
    (m : ConnectionManager) (id : ℕ) (h : ConnectionHandle) (channel : Str)
    → ((subscribe_handle m id h channel).0 ≡ m)
      ⊎ ((subscribe_handle m id h channel).0 ≡ add_subscription m id h channel)
unfolding subscribe_handle
subscribe_handle-cases m id h channel = ground arith

module _ (P : ℕ → Option ConnectionHandle → Type 0) (id : ℕ) (t : TenantContext)
    (stable : Stable P id t) where
  insert-Everywhere :
      (h : ConnectionHandle) (conns : HashMap ℕ ConnectionHandle)
      → P id (some h)
      → ((i : ℕ) → P i (get i conns))
      → (i : ℕ) → P i (get i (insert id h conns))
  insert-Everywhere h conns new old i =
      subst (P i) (sym (get-insert i id h conns)) (go (i == id) (λ e. (==_iff i id).0 e))
    where
      go : (b : Bool) → (b ≡ true → i ≡ id) → P i (if b then some h else get i conns)
      go true same = subst (λ j. P j (some h)) (sym (same refl)) new
      go false same = old i

  subscribe-Everywhere :
      (m : ConnectionManager) (name : Str)
      → IsPlain name
      → Everywhere P m
      → Everywhere P (subscribe_to_channel m id (namespace_channel t name)).0
  unfolding subscribe_to_channel add_subscription
  subscribe-Everywhere m name plain all = elim (Option-cases (get id m.connections)) [
    | inl e ↦ rw (e, subscribe_to_channel) all
    | inr (h, e) ↦
        let channel = namespace_channel t name in
        rw (e, subscribe_to_channel)
          (elim (subscribe_handle-cases m id h channel) [
            | inl same ↦ rw same all
            | inr added ↦ rw added (
                insert-Everywhere _ m.connections
                  (stable.added h name plain (subst (P id) e (all id))) all)
          ])
  ]

  unsubscribe-Everywhere :
      (m : ConnectionManager) (channel : Str)
      → Everywhere P m
      → Everywhere P (unsubscribe_from_channel m id channel)
  unfolding unsubscribe_from_channel drop_subscription
  unsubscribe-Everywhere m channel all = elim (Option-cases (get id m.connections)) [
    | inl e ↦ rw (e, unsubscribe_from_channel) all
    | inr (h, e) ↦
        rw (e, unsubscribe_from_channel)
          (insert-Everywhere _ m.connections (stable.removed h channel (subst (P id) e (all id)))
            all)
  ]

  touch-Everywhere :
      (w : Outside) (now : ℕ) (m : ConnectionManager)
      → Everywhere P m
      → Everywhere P (touch w.chrono now m id)
  unfolding touch update_activity
  touch-Everywhere w now m all = elim (Option-cases (get id m.connections)) [
    | inl e ↦ rw (e, touch) all
    | inr (h, e) ↦
        rw (e, touch)
          (insert-Everywhere _ m.connections (stable.seen h _ (subst (P id) e (all id))) all)
  ]

  unsubscribe_loop-Everywhere :
      (w : Outside) (channels : List Str) (m : ConnectionManager)
      → Everywhere P m
      → Everywhere P (unsubscribe_loop w t id channels m)
  unfolding unsubscribe_loop
  unsubscribe_loop-Everywhere w [] m all = all
  unsubscribe_loop-Everywhere w (ch ∷ chs) m all =
      unsubscribe_loop-Everywhere w chs _ (unsubscribe-Everywhere m (namespace_channel t ch) all)

  subscribe_one-Everywhere :
      (w : Outside) (ch : Str) (a : Subscribing)
      → IsUtf8 ch
      → Everywhere P a.manager
      → Everywhere P (subscribe_one w t id ch a).manager
  unfolding subscribe_one
  subscribe_one-Everywhere w ch a u all =
      elim (Bool-cases (is_valid_channel_name w.unicode_alphanumeric ch)) [
        | inl e ↦
            let plain = is_valid_channel_name-IsPlain w.unicode_alphanumeric ch u e in
            rw e (subscribe-Everywhere a.manager ch plain.2 all)
        | inr e ↦ rw e all
      ]

  subscribe_loop-Everywhere :
      (w : Outside) (channels : List Str) (a : Subscribing)
      → AllUtf8 channels
      → Everywhere P a.manager
      → Everywhere P (subscribe_loop w t id channels a).manager
  unfolding subscribe_loop
  subscribe_loop-Everywhere w [] a u all = all
  subscribe_loop-Everywhere w (ch ∷ chs) a (u, us) all =
      subscribe_loop-Everywhere w chs _ us (subscribe_one-Everywhere w ch a u all)

module _ (w : Outside) (reads : ParsesUtf8 w) (P : ℕ → Option ConnectionHandle → Type 0)
    (tm : TenantManager) (handle : ConnectionHandle)
    (stable : Stable P handle.id (create_context tm handle.tenant_id)) where
  -- The registry after a parsed text.
  parsed-Everywhere :
      (now : ℕ) (r : Result ClientMessage Str) (s : AppState)
      → ((cs : List Str) → r ≡ ok (subscribe cs) → AllUtf8 cs)
      → (s.tenant_manager ≡ tm)
      → Everywhere P s.connection_manager
      → Everywhere P (parsed w now r s handle).0.connection_manager
  unfolding handle_client_message handle_subscribe handle_unsubscribe handle_ack
  parsed-Everywhere now (err e) s u same all = all
  parsed-Everywhere now (ok ping) s u same all = all
  parsed-Everywhere now (ok (ack n)) s u same all = elim (Bool-cases s.ack_backend.config.enabled) [
    | inl e ↦ rw e all
    | inr e ↦ rw e all
  ]
  parsed-Everywhere now (ok (subscribe cs)) s u same all =
      rw same (subscribe_loop-Everywhere P handle.id _ stable w cs _ (u cs refl) all)
  parsed-Everywhere now (ok (unsubscribe cs)) s u same all =
      rw same (unsubscribe_loop-Everywhere P handle.id _ stable w cs _ all)

  -- A property that is stable at the connection of the message holds of the registry after it.
  pub process_message-Everywhere :
      (now : ℕ) (msg : Message) (s : AppState)
      → (s.tenant_manager ≡ tm)
      → Everywhere P s.connection_manager
      → Everywhere P (process_message w now msg s handle).0.connection_manager
  unfolding process_message
  process_message-Everywhere now (binary b) s same all = all
  process_message-Everywhere now close s same all = all
  process_message-Everywhere now (ping_frame b) s same all =
      touch-Everywhere P handle.id _ stable w now s.connection_manager all
  process_message-Everywhere now (pong_frame b) s same all =
      touch-Everywhere P handle.id _ stable w now s.connection_manager all
  process_message-Everywhere now (text b) s same all =
      parsed-Everywhere now (w.parse b) (active w now s handle) (reads b) same
        (touch-Everywhere P handle.id _ stable w now s.connection_manager all)

parsed-tenant_manager :
    (w : Outside) (now : ℕ) (r : Result ClientMessage Str) (s : AppState)
    (handle : ConnectionHandle)
    → (parsed w now r s handle).0.tenant_manager ≡ s.tenant_manager
unfolding handle_client_message handle_subscribe handle_unsubscribe handle_ack
parsed-tenant_manager w now (err e) s handle = refl
parsed-tenant_manager w now (ok ping) s handle = refl
parsed-tenant_manager w now (ok (ack n)) s handle = ground arith
parsed-tenant_manager w now (ok (subscribe cs)) s handle = refl
parsed-tenant_manager w now (ok (unsubscribe cs)) s handle = refl

pub process_message-tenant_manager :
    (w : Outside) (now : ℕ) (msg : Message) (s : AppState) (handle : ConnectionHandle)
    → (process_message w now msg s handle).0.tenant_manager ≡ s.tenant_manager
unfolding process_message
process_message-tenant_manager w now (binary b) s handle = refl
process_message-tenant_manager w now close s handle = refl
process_message-tenant_manager w now (ping_frame b) s handle = refl
process_message-tenant_manager w now (pong_frame b) s handle = refl
process_message-tenant_manager w now (text b) s handle =
    parsed-tenant_manager w now (w.parse b) (active w now s handle) handle
