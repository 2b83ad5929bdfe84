-- ===== src/Queue/Core.antt =====
-- What both in-memory queues do with the map from users to their messages, for any type of message.
-- A loop over messages tests each against the clock; `expired` is the outcome for each message.
use ara_notification_service.Common.{
  ℕ, ◌+◌, ◌-◌, max, Bool, true, false, not, leb, if◌then◌else◌, none, some, List, [], ◌∷◌, ◌++◌,
  length, is_empty, tail, retain, sum_by, HashMap, Str, str_key, get, insert, remove, members,
}

module _ {M : Type 0} where
  -- Drop the oldest message of a full queue, then push.
  unfoldable pub push_bounded : ℕ → List M → M → List M
  push_bounded most q x = if leb most (length q) then tail q ++ x ∷ [] else q ++ x ∷ []

  unfoldable pub enqueue_message : ℕ → HashMap Str (List M) → Str → M → HashMap Str (List M)
  unfolding push_bounded
  enqueue_message most queues user_id x =
      insert user_id (push_bounded most (members user_id queues) x) queues

  -- The loop of `drain`: the messages that are still valid, and the number of the others.
  unfoldable pub drain_loop : (M → Bool) → List M → List M → ℕ → List M × ℕ
  drain_loop expired [] valid n = (valid, n)
  drain_loop expired (x ∷ xs) valid n = elim (expired x) [
    | true ↦ drain_loop expired xs valid (n + 1)
    | false ↦ drain_loop expired xs (valid ++ x ∷ []) n
  ]

  -- One round of `cleanup_expired`, for the queue that `get_mut` found.
  unfoldable pub cleanup_queue :
      (M → Bool) → Str → List M → HashMap Str (List M) → HashMap Str (List M) × ℕ
  cleanup_queue expired user_id q queues =
      let kept = retain (λ x. not (expired x)) q in
      (
        if is_empty kept then remove user_id queues else insert user_id kept queues,
        length q - length kept,
      )

  unfoldable pub cleanup_user : (M → Bool) → Str → HashMap Str (List M) → HashMap Str (List M) × ℕ
  unfolding cleanup_queue
  cleanup_user expired user_id queues = elim (get user_id queues) [
    | none ↦ (queues, 0)
    | some q ↦ cleanup_queue expired user_id q queues
  ]

  unfoldable pub cleanup_loop :
      (M → Bool) → List Str → HashMap Str (List M) → ℕ → HashMap Str (List M) × ℕ
  unfolding cleanup_user
  cleanup_loop expired [] queues removed = (queues, removed)
  cleanup_loop expired (u ∷ us) queues removed =
      let (queues', n) = cleanup_user expired u queues in
      cleanup_loop expired us queues' (removed + n)

  abbrev pub total : HashMap Str (List M) → ℕ
  total = sum_by (λ e. length e.1)

  abbrev pub largest : HashMap Str (List M) → ℕ
  largest [] = 0
  largest (e ∷ queues) = max (length e.1) (largest queues)
