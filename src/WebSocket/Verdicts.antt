-- ===== src/WebSocket/Verdicts.antt =====
-- What becomes of each name of a subscription request (`handle_subscribe` of
-- src/domain/realtime/websocket/handler.rs), and what a single subscription says of the registry.
use ara_notification_service.Common.{
  ℕ, ◌≤◌, ◌<◌, ◌≡◌, refl, inl, inr, arith, ◌&&◌, ◌||◌, none, some, Option-cases, List, [], ◌∷◌,
  ◌++◌, length, length-append, Str, str_key, nat_key, ◌==◌, get, get-insert, set_insert, Result, ok,
  err, codes,
}
use ara_notification_service.Connection.Types.{
  ConnectionHandle, ConnectionManager, SubscribeError, subscription_limit_exceeded,
  connection_not_found,
}
use ara_notification_service.Connection.Manager.{
  subscribe_to_channel, subscribe_handle, add_subscription,
}
use ara_notification_service.Connection.Limits.{subscription_count}
use ara_notification_service.Connection.Valid.{IsValid}
use ara_notification_service.Connection.Effects.{listens, subscribe_to_channel_lem}
use ara_notification_service.WebSocket.Handler.{error_text}

-- What becomes of one name of a request.
pub data Verdict : Type 0 where
  confirmed misnamed : Verdict
  refused : SubscribeError → Verdict

-- The names confirmed and the complaints, in the order of the names.
abbrev pub confirmed_names : List Str → List Verdict → List Str
confirmed_names [] vs = []
confirmed_names (ch ∷ chs) [] = []
confirmed_names (ch ∷ chs) (confirmed ∷ vs) = ch ∷ confirmed_names chs vs
confirmed_names (ch ∷ chs) (misnamed ∷ vs) = confirmed_names chs vs
confirmed_names (ch ∷ chs) (refused e ∷ vs) = confirmed_names chs vs

abbrev pub complaints : List Str → List Verdict → List Str
complaints [] vs = []
complaints (ch ∷ chs) [] = []
complaints (ch ∷ chs) (confirmed ∷ vs) = complaints chs vs
complaints (ch ∷ chs) (misnamed ∷ vs) = (codes "Invalid channel name: " ++ ch) ∷ complaints chs vs
complaints (ch ∷ chs) (refused e ∷ vs) = error_text e ∷ complaints chs vs

-- The connection is not in the registry, or has as many subscriptions as the limit allows.
abbrev pub Refuses : ConnectionManager → ℕ → SubscribeError → Type 0
Refuses m id connection_not_found = get id m.connections ≡ none
Refuses m id (subscription_limit_exceeded current most) =
    (most ≡ m.limits.max_subscriptions_per_connection)
    × (0 < most)
    × (most ≤ current)
    × (current ≤ subscription_count (get id m.connections))

length-set_insert-le : (c : Str) (s : List Str) → length s ≤ length (set_insert c s)
length-set_insert-le c s = ground (arith, length-append s (c ∷ []))

-- What a subscription keeps: that there is no connection, the limits, the subscriptions there are.
abbrev pub Grows : ℕ → ConnectionManager → ConnectionManager → Type 0
Grows id m n =
    (get id m.connections ≡ none → get id n.connections ≡ none)
    × (n.limits ≡ m.limits)
    × (subscription_count (get id m.connections) ≤ subscription_count (get id n.connections))

subscribe_handle-Grows :
    (m : ConnectionManager) (id : ℕ) (channel : Str) (h : ConnectionHandle)
    → get id m.connections ≡ some h
    → Grows id m (subscribe_handle m id h channel).0
unfolding subscribe_handle add_subscription
subscribe_handle-Grows m id channel h found = ground (
  arith,
  get-insert id id (record h { subscriptions = set_insert channel h.subscriptions }) m.connections,
  length-set_insert-le channel h.subscriptions,
)

pub subscribe-Grows :
    (m : ConnectionManager) (id : ℕ) (channel : Str)
    → Grows id m (subscribe_to_channel m id channel).0
unfolding subscribe_to_channel
subscribe-Grows m id channel = elim (Option-cases (get id m.connections)) [
  | inl e ↦ ground (arith, e)
  | inr (h, e) ↦ ground (arith, subscribe_handle-Grows m id channel h e)
]

-- What the outcome of a subscription says of the registry after it.
abbrev pub Tells :
    ConnectionManager → ℕ → Str → ConnectionManager → Result (Unit {0}) SubscribeError → Type 0
Tells m id channel n (ok u) =
    (c : Str) (i : ℕ) → listens n c i ≡ ((c == channel && i == id) || listens m c i)
Tells m id channel n (err e) = (n ≡ m) × Refuses m id e

pub subscribe-Tells :
    (m : ConnectionManager) (id : ℕ) (channel : Str)
    → IsValid m
    → let (n, r) = subscribe_to_channel m id channel in Tells m id channel n r
subscribe-Tells m id channel v = elim (subscribe_to_channel_lem m id channel v) [
  | inl (gone, e) ↦ rw e (refl, gone)
  | inr (h, found, inl (some_limit, reached, e)) ↦
      rw e (refl, (refl, some_limit, reached, ground arith))
  | inr (h, found, inr (room, done, more)) ↦ rw done more
]
