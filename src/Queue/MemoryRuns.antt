-- ===== src/Queue/MemoryRuns.antt =====
-- The in-memory backend through any sequence of calls: enqueue, drain, cleanup, clear.
use mathlib.Core.Path.{subst}
use ara_notification_service.Common.{
  ℕ, ◌+◌, ◌≤◌, ◌≡◌, refl, sym, ◌∙◌, ap, inl, inr, max, arith, Bool, true, false, Bool-cases,
  if◌then◌else◌, Option, none, some, List, [], ◌∷◌, ◌++◌, length, length-append, is_empty, tail,
  Str, str_key, get, keys, members, get-insert, get-remove, contains-keys, is_some, ok, Chrono,
}
use ara_notification_service.Notification.Types.{NotificationEvent}
use ara_notification_service.Queue.Core.{enqueue_message, push_bounded, total, cleanup_loop}
use ara_notification_service.Queue.Draining.{length-live}
use ara_notification_service.Queue.Cleanup.{
  IsQueues, trimmed, cleanup_loop_lem, insert-IsQueues, remove-IsQueues,
}
use ara_notification_service.Queue.Models.{StoredMessage, new_stored, QueueConfig, empty_drain}
use ara_notification_service.Queue.MemoryLaws.{drain_lem}
use ara_notification_service.Queue.MemoryBackend.{
  MemoryQueueBackend, new, enqueue, expired_at, drain, drain_found, cleanup_expired,
  clear_user_queue,
}

module _ {M : Type 0} where
  filled-push : (l : List M) (x : M) → is_empty (l ++ x ∷ []) ≡ false
  filled-push [] x = refl
  filled-push (y ∷ l) x = refl

  push_bounded-filled : (most : ℕ) (q : List M) (x : M) → is_empty (push_bounded most q x) ≡ false
  unfolding push_bounded
  push_bounded-filled most q x = ground (arith, filled-push q x, filled-push (tail q) x)

  length-push_bounded :
      (most : ℕ) (q : List M) (x : M)
      → length q ≤ max 1 most
      → length (push_bounded most q x) ≤ max 1 most
  unfolding push_bounded
  length-push_bounded most [] x h = ground arith
  length-push_bounded most (y ∷ q) x h =
      ground (arith, length-append q (x ∷ []), length-append (y ∷ q) (x ∷ []))

enqueue-IsQueues :
    (id now : ℕ) (b : MemoryQueueBackend) (u : Str) (x : NotificationEvent)
    → IsQueues b.queues
    → IsQueues (enqueue id now b u x).0.queues
unfolding enqueue enqueue_message
enqueue-IsQueues id now b u x v = elim (Bool-cases b.config.enabled) [
  | inl on ↦ subst IsQueues (ground arith) (
      insert-IsQueues u
        (push_bounded b.config.max_queue_size_per_user (members u b.queues) (new_stored id now x))
        b.queues (push_bounded-filled _ _ _) v)
  | inr off ↦ subst IsQueues (ground arith) v
]

drain-IsQueues :
    (c : Chrono) (now : StoredMessage → ℕ) (b : MemoryQueueBackend) (u : Str)
    → IsQueues b.queues
    → IsQueues (drain c now b u).0.queues
unfolding drain drain_found
drain-IsQueues c now b u v = go b.config.enabled (get u b.queues)
  where
    go :
        (t : Bool) (o : Option (List StoredMessage))
        → IsQueues (if t then drain_found c now b u o else (b, ok empty_drain)).0.queues
    go false o = v
    go true none = v
    go true (some q) = remove-IsQueues u b.queues v

trimmed_absent :
    (expired : StoredMessage → Bool) (o : Option (List StoredMessage))
    → (if is_some o then trimmed expired o else o) ≡ trimmed expired o
trimmed_absent expired none = refl
trimmed_absent expired (some q) = refl

-- After `cleanup_expired` every user's queue holds exactly its messages that were not expired, in
-- order, a queue that loses all its messages is gone, the answer counts what was removed, and the
-- queues stay well formed.
pub cleanup_expired_lem :
    (c : Chrono) (now : StoredMessage → ℕ) (b : MemoryQueueBackend)
    → IsQueues b.queues
    → (removed : ℕ) × ((cleanup_expired c now b).1 ≡ ok removed)
      × ((u : Str)
          → get u (cleanup_expired c now b).0.queues
            ≡ trimmed (expired_at c now b) (get u b.queues))
      × (total (cleanup_expired c now b).0.queues + removed ≡ total b.queues)
      × IsQueues (cleanup_expired c now b).0.queues
unfolding cleanup_expired
cleanup_expired_lem c now b v =
    let (one, sum, w) =
      cleanup_loop_lem (expired_at c now b) (keys b.queues) b.queues 0 v.users_unique v in
    (
      (cleanup_loop (expired_at c now b) (keys b.queues) b.queues 0).1,
      refl,
      λ u.
          one u
          ∙ ap (λ t. if t then trimmed (expired_at c now b) (get u b.queues) else get u b.queues)
              (contains-keys u b.queues)
          ∙ trimmed_absent (expired_at c now b) (get u b.queues),
      omega arith,
      w,
    )

-- The calls that change the backend, with the clock readings and the identifiers that they get.
pub data Call : Type 0 where
  enqueues : ℕ → ℕ → Str → NotificationEvent → Call
  drains : (StoredMessage → ℕ) → Str → Call
  sweeps : (StoredMessage → ℕ) → Call
  clears : Str → Call

unfoldable pub step : Chrono → MemoryQueueBackend → Call → MemoryQueueBackend
unfolding enqueue drain cleanup_expired clear_user_queue
step c b (enqueues id now u x) = (enqueue id now b u x).0
step c b (drains now u) = (drain c now b u).0
step c b (sweeps now) = (cleanup_expired c now b).0
step c b (clears u) = (clear_user_queue b u).0

abbrev pub run : Chrono → MemoryQueueBackend → List Call → MemoryQueueBackend
run c b [] = b
run c b (x ∷ xs) = run c (step c b x) xs

step-IsQueues :
    (c : Chrono) (b : MemoryQueueBackend) (x : Call)
    → IsQueues b.queues
    → IsQueues (step c b x).queues
unfolding step clear_user_queue
step-IsQueues c b (enqueues id now u x) v = enqueue-IsQueues id now b u x v
step-IsQueues c b (drains now u) v = drain-IsQueues c now b u v
step-IsQueues c b (sweeps now) v = (cleanup_expired_lem c now b v).4
step-IsQueues c b (clears u) v = remove-IsQueues u b.queues v

config-step : (c : Chrono) (b : MemoryQueueBackend) (x : Call) → (step c b x).config ≡ b.config
unfolding step enqueue cleanup_expired clear_user_queue
config-step c b (enqueues id now u x) = ground arith
config-step c b (drains now u) = (drain_lem c now b u).2
config-step c b (sweeps now) = refl
config-step c b (clears u) = refl

abbrev pub IsBounded : ℕ → MemoryQueueBackend → Type 0
IsBounded n b = (u : Str) → length (members u b.queues) ≤ n

step-IsBounded :
    (c : Chrono) (b : MemoryQueueBackend) (x : Call)
    → IsQueues b.queues
    → IsBounded (max 1 b.config.max_queue_size_per_user) b
    → IsBounded (max 1 b.config.max_queue_size_per_user) (step c b x)
unfolding step enqueue enqueue_message push_bounded clear_user_queue
step-IsBounded c b (enqueues id now u x) v h j = ground (
  arith,
  get-insert j u
      (push_bounded b.config.max_queue_size_per_user (members u b.queues) (new_stored id now x))
      b.queues,
  length-push_bounded b.config.max_queue_size_per_user (members u b.queues) (new_stored id now x),
  h j,
  h u,
)
step-IsBounded c b (drains now u) v h j = ground (arith, (drain_lem c now b u).1 j, h j)
step-IsBounded c b (sweeps now) v h j = ground (
  arith,
  (cleanup_expired_lem c now b v).2 j,
  length-live (expired_at c now b) (members j b.queues),
  h j,
)
step-IsBounded c b (clears u) v h j = ground (arith, get-remove j u b.queues, h j)

-- Through any calls in any order on a new backend, no user's queue is longer than
-- `max_queue_size_per_user` (a bound of 0 works as 1), no user has two queues, and no empty queue is
-- kept.
pub run-IsBounded :
    (c : Chrono) (config : QueueConfig) (xs : List Call)
    → IsBounded (max 1 config.max_queue_size_per_user) (run c (new config) xs)
      × IsQueues (run c (new config) xs).queues
unfolding new get
run-IsBounded c config xs =
    go (new config) xs refl (record { users_unique = tt; filled = λ u. tt }) (λ u. omega arith)
  where
    go :
        (b : MemoryQueueBackend) (xs : List Call)
        → b.config ≡ config
        → IsQueues b.queues
        → IsBounded (max 1 config.max_queue_size_per_user) b
        → IsBounded (max 1 config.max_queue_size_per_user) (run c b xs)
          × IsQueues (run c b xs).queues
    go b [] e v h = (h, v)
    go b (x ∷ xs) e v h = go (step c b x) xs (config-step c b x ∙ e) (step-IsQueues c b x v) (
        subst (λ g. IsBounded (max 1 g.max_queue_size_per_user) (step c b x)) e
          (step-IsBounded c b x v
            (subst (λ g. IsBounded (max 1 g.max_queue_size_per_user) b) (sym e) h)))
