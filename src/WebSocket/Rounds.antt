-- ===== src/WebSocket/Rounds.antt =====
-- One round of the loop of `handle_subscribe` (src/domain/realtime/websocket/handler.rs): the verdict
-- on one name, and what the registry says for it.
use mathlib.Core.List.{append-nil}
use ara_notification_service.Common.{
  ℕ, ◌≡◌, refl, sym, inl, inr, arith, true, false, ◌&&◌, ◌||◌, Bool-cases, List, [], ◌∷◌, ◌++◌, map,
  contains, Str, str_key, nat_key, ◌==◌, Result, ok, err, codes,
}
use ara_notification_service.Connection.Types.{
  ConnectionManager, SubscribeError, subscription_limit_exceeded, connection_not_found,
}
use ara_notification_service.Connection.Manager.{subscribe_to_channel}
use ara_notification_service.Connection.Valid.{IsValid}
use ara_notification_service.Connection.Invariant.{subscribe_to_channel-IsValid}
use ara_notification_service.Connection.Effects.{listens}
use ara_notification_service.Tenant.Context.{TenantContext, namespace_channel}
use ara_notification_service.WebSocket.Names.{is_valid_channel_name}
use ara_notification_service.WebSocket.Handler.{Outside, Subscribing, outcome, subscribe_one}
use ara_notification_service.WebSocket.Verdicts.{
  confirmed, misnamed, refused, Grows, Refuses, Tells, Verdict, complaints, confirmed_names,
  subscribe-Grows, subscribe-Tells,
}

module _ (w : Outside) (t : TenantContext) (id : ℕ) where
  -- The verdict on a name is borne out by the registry: a confirmed name is valid and the lookup of its
  -- channel returns the connection, a name complained of as such is not valid, and a valid name was
  -- refused for what the registry shows.
  abbrev pub Justified : ConnectionManager → Str → Verdict → Type 0
  Justified m ch confirmed =
      (is_valid_channel_name w.unicode_alphanumeric ch ≡ true)
      × (listens m (namespace_channel t ch) id ≡ true)
  Justified m ch misnamed = is_valid_channel_name w.unicode_alphanumeric ch ≡ false
  Justified m ch (refused e) =
      (is_valid_channel_name w.unicode_alphanumeric ch ≡ true) × Refuses m id e

  -- A verdict for each name, and each of them justified.
  abbrev pub AllJustified : ConnectionManager → List Str → List Verdict → Type 0
  AllJustified m [] [] = Unit
  AllJustified m [] (v ∷ vs) = ⊥
  AllJustified m (ch ∷ chs) [] = ⊥
  AllJustified m (ch ∷ chs) (v ∷ vs) = Justified m ch v × AllJustified m chs vs

  -- The lookups after the names were confirmed.
  abbrev pub Listens : ConnectionManager → ConnectionManager → List Str → Type 0
  Listens m n names =
      (c : Str) (i : ℕ)
      → listens n c i ≡ (listens m c i || (i == id && contains c (map (namespace_channel t) names)))

  Refuses-Grows :
      (m n : ConnectionManager) (e : SubscribeError)
      → Grows id m n
      → Refuses m id e
      → Refuses n id e
  Refuses-Grows m n connection_not_found (gone, same, more) r = gone r
  Refuses-Grows m n (subscription_limit_exceeded current most) (gone, same, more) (a, b, c, d) =
      (ground arith, b, c, omega arith)

  pub Justified-Grows :
      (m n : ConnectionManager) (names : List Str) (ch : Str) (v : Verdict)
      → Grows id m n
      → Listens m n names
      → Justified m ch v
      → Justified n ch v
  Justified-Grows m n names ch confirmed g l (valid, there) =
      (valid, ground (arith, l (namespace_channel t ch) id))
  Justified-Grows m n names ch misnamed g l j = j
  Justified-Grows m n names ch (refused e) g l (valid, r) = (valid, Refuses-Grows m n e g r)

  -- What the verdicts on the names say of the two states of the loop.
  abbrev pub Answered : Subscribing → Subscribing → List Str → List Verdict → Type 0
  Answered a out chs vs =
      AllJustified out.manager chs vs
      × (out.done ≡ a.done ++ confirmed_names chs vs)
      × (out.errors ≡ a.errors ++ complaints chs vs)
      × Listens a.manager out.manager (confirmed_names chs vs)

  -- One round.
  abbrev pub AnswersOne : Subscribing → Subscribing → Str → Type 0
  AnswersOne a out ch =
      ((x : Verdict) × Answered a out (ch ∷ []) (x ∷ []))
      × IsValid out.manager
      × Grows id a.manager out.manager

  outcome-Answers :
      (a : Subscribing) (ch : Str) (n : ConnectionManager) (r : Result (Unit {0}) SubscribeError)
      → is_valid_channel_name w.unicode_alphanumeric ch ≡ true
      → IsValid n
      → Grows id a.manager n
      → Tells a.manager id (namespace_channel t ch) n r
      → AnswersOne a (record (outcome r ch a) { manager = n }) ch
  unfolding contains
  outcome-Answers a ch n (ok u) valid v g more = (
    (
      confirmed,
      (
        ((valid, ground (arith, more (namespace_channel t ch) id)), tt),
        refl,
        sym (append-nil a.errors),
        λ c i. ground (arith, more c i),
      ),
    ),
    v,
    g,
  )
  outcome-Answers a ch n (err e) valid v g (same, r) = (
    (
      refused e,
      (
        ((valid, Refuses-Grows a.manager n e g r), tt),
        sym (append-nil a.done),
        refl,
        λ c i. rw same (ground arith),
      ),
    ),
    v,
    g,
  )

  misnamed-Answers :
      (a : Subscribing) (ch : Str)
      → is_valid_channel_name w.unicode_alphanumeric ch ≡ false
      → IsValid a.manager
      → AnswersOne a
          (record a { errors = a.errors ++ (codes "Invalid channel name: " ++ ch) ∷ [] })
          ch
  unfolding contains
  misnamed-Answers a ch wrong v = (
    (misnamed, ((wrong, tt), sym (append-nil a.done), refl, λ c i. ground arith)),
    v,
    ((λ e. e), refl, omega arith),
  )

  pub subscribe_one-Answers :
      (a : Subscribing) (ch : Str) → IsValid a.manager → AnswersOne a (subscribe_one w t id ch a) ch
  unfolding subscribe_one
  subscribe_one-Answers a ch v =
      elim (Bool-cases (is_valid_channel_name w.unicode_alphanumeric ch)) [
        | inl e ↦
            let channel = namespace_channel t ch in
            rw e (
              outcome-Answers a ch (subscribe_to_channel a.manager id channel).0
                (subscribe_to_channel a.manager id channel).1 e
                (subscribe_to_channel-IsValid a.manager id channel v)
                (subscribe-Grows a.manager id channel) (subscribe-Tells a.manager id channel v))
        | inr e ↦ rw e (misnamed-Answers a ch e v)
      ]
