-- ===== src/WebSocket/Replies.antt =====
-- What a subscription request is answered, and what the answer says of the registry.
use mathlib.Core.Path.{subst}
use mathlib.Core.List.{append_assoc, append-nil, map-append}
use ara_notification_service.Common.{
  ℕ, ◌≡◌, refl, sym, ◌∙◌, arith, List, [], ◌∷◌, ◌++◌, map, contains, contains-append, Str, str_key,
  nat_key,
}
use ara_notification_service.Connection.Types.{ConnectionManager}
use ara_notification_service.Connection.Valid.{IsValid}
use ara_notification_service.Tenant.Context.{TenantContext, namespace_channel}
use ara_notification_service.WebSocket.Handler.{Outside, Subscribing, subscribe_one, subscribe_loop}
use ara_notification_service.WebSocket.Verdicts.{
  confirmed, misnamed, refused, Grows, Verdict, complaints, confirmed_names,
}
use ara_notification_service.WebSocket.Rounds.{
  Answered, Listens, Justified-Grows, subscribe_one-Answers,
}

module _ (w : Outside) (t : TenantContext) (id : ℕ) where
  confirmed_names-cons :
      (ch : Str) (chs : List Str) (x : Verdict) (vs : List Verdict)
      → confirmed_names (ch ∷ chs) (x ∷ vs)
        ≡ confirmed_names (ch ∷ []) (x ∷ []) ++ confirmed_names chs vs
  confirmed_names-cons ch chs confirmed vs = refl
  confirmed_names-cons ch chs misnamed vs = refl
  confirmed_names-cons ch chs (refused e) vs = refl

  complaints-cons :
      (ch : Str) (chs : List Str) (x : Verdict) (vs : List Verdict)
      → complaints (ch ∷ chs) (x ∷ vs) ≡ complaints (ch ∷ []) (x ∷ []) ++ complaints chs vs
  complaints-cons ch chs confirmed vs = refl
  complaints-cons ch chs misnamed vs = refl
  complaints-cons ch chs (refused e) vs = refl

  Listens-append :
      (k m n : ConnectionManager) (xs ys : List Str)
      → Listens w t id k m xs
      → Listens w t id m n ys
      → Listens w t id k n (xs ++ ys)
  unfolding contains
  Listens-append k m n xs ys l l' c i = ground (
    arith,
    l c i,
    l' c i,
    map-append (namespace_channel t) xs ys,
    contains-append c (map (namespace_channel t) xs) (map (namespace_channel t) ys),
  )

  Answered-cons :
      (a b out : Subscribing) (ch : Str) (chs : List Str) (x : Verdict) (vs : List Verdict)
      → Answered w t id a b (ch ∷ []) (x ∷ [])
      → Answered w t id b out chs vs
      → Grows id b.manager out.manager
      → Answered w t id a out (ch ∷ chs) (x ∷ vs)
  Answered-cons a b out ch chs x vs (j, d, e, l) (j', d', e', l') g = (
    (Justified-Grows w t id b.manager out.manager (confirmed_names chs vs) ch x g l' j.0, j'),
    cc (
      d,
      d',
      confirmed_names-cons ch chs x vs,
      append_assoc a.done (confirmed_names (ch ∷ []) (x ∷ [])) (confirmed_names chs vs),
    ),
    cc (
      e,
      e',
      complaints-cons ch chs x vs,
      append_assoc a.errors (complaints (ch ∷ []) (x ∷ [])) (complaints chs vs),
    ),
    subst (Listens w t id a.manager out.manager) (sym (confirmed_names-cons ch chs x vs)) (
        Listens-append a.manager b.manager out.manager (confirmed_names (ch ∷ []) (x ∷ []))
          (confirmed_names chs vs) l l'),
  )

  loop-Answered :
      (channels : List Str) (a : Subscribing)
      → IsValid a.manager
      → let out = subscribe_loop w t id channels a in
        ((vs : List Verdict) × Answered w t id a out channels vs)
        × IsValid out.manager
        × Grows id a.manager out.manager
  unfolding subscribe_loop contains
  loop-Answered [] a v = (
    ([], (tt, sym (append-nil a.done), sym (append-nil a.errors), λ c i. ground arith)),
    v,
    ((λ e. e), refl, omega arith),
  )
  loop-Answered (ch ∷ chs) a v =
      let b = subscribe_one w t id ch a in
      let ((x, one), valid, (gone, limits, more)) = subscribe_one-Answers w t id a ch v in
      let ((vs, rest), valid', (gone', limits', more')) = loop-Answered chs b valid in
      (
        (
          x ∷ vs,
          Answered-cons a b (subscribe_loop w t id chs b) ch chs x vs one rest
              (gone', limits', more'),
        ),
        valid',
        ((λ e. gone' (gone e)), limits' ∙ limits, omega (arith, more, more')),
      )

  -- Each name of a request gets a verdict, in a registry that is valid again. The names confirmed and
  -- the complaints are added in the order of the names, one for each. A confirmed name is valid, and the
  -- lookup of its channel, in the context of the tenant, returns the connection; a name complained of as
  -- invalid is not valid; a valid name is refused only if the connection is not in the registry or has
  -- reached the limit. Every other pair of a channel and a connection is as before.
  pub subscribe_loop_lem :
      (channels : List Str) (a : Subscribing)
      → IsValid a.manager
      → let out = subscribe_loop w t id channels a in
        IsValid out.manager × ((vs : List Verdict) × Answered w t id a out channels vs)
  subscribe_loop_lem channels a v =
      let (answered, valid, grows) = loop-Answered channels a v in (valid, answered)
