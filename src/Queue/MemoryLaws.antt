-- ===== src/Queue/MemoryLaws.antt =====
-- The laws of `MemoryQueueBackend` (src/domain/queue/memory_backend.rs): `enqueue` in any sequence, and
-- `drain`.
use ara_notification_service.Common.{
  ℕ, ◌≡◌, refl, sym, ◌∙◌, ap, inl, inr, max, arith, Bool, true, false, ◌&&◌, Bool-cases,
  if◌then◌else◌, Option, none, some, List, [], ◌∷◌, Str, str_key, ◌==◌, get, members, get-remove,
  count, retain, Result, ok, Chrono,
}
use ara_notification_service.Queue.Newest.{newest, newest_short}
use ara_notification_service.Queue.Draining.{live, drain_loop_lem}
use ara_notification_service.Queue.Models.{
  StoredMessage, QueueConfig, DrainResult, empty_drain, QueueBackendError,
}
use ara_notification_service.Queue.MemoryBackend.{
  MemoryQueueBackend, new, enqueue, expired_at, drain, drain_found, drain_result,
}
use ara_notification_service.Queue.Enqueues.{
  Request, bound, config-enqueue, enqueue_all, members-enqueue_all, messages_for,
}

new_empty :
    (config : QueueConfig) (u : Str)
    → members u (new config).queues ≡ newest (bound (new config)) []
unfolding new get
new_empty config u = sym (newest_short (max 1 config.max_queue_size_per_user) [] (omega arith))

enqueue_disabled :
    (b : MemoryQueueBackend) (r : Request)
    → b.config.enabled ≡ false
    → (enqueue r.id r.now b r.user_id r.event).0 ≡ b
unfolding enqueue
enqueue_disabled b r off = ground arith

enqueue_all_disabled :
    (b : MemoryQueueBackend) (rs : List Request) → b.config.enabled ≡ false → enqueue_all b rs ≡ b
unfolding enqueue_all
enqueue_all_disabled b [] off = refl
enqueue_all_disabled b (r ∷ rs) off =
    ap (λ x. enqueue_all x rs) (enqueue_disabled b r off) ∙ enqueue_all_disabled b rs off

-- Whatever was enqueued on a new backend, the queue of a user holds the newest messages for that user,
-- at most `max_queue_size_per_user` of them (a bound of 0 works as 1), oldest first; a disabled
-- backend holds none.
pub queue-newest :
    (config : QueueConfig) (rs : List Request) (u : Str)
    → members u (enqueue_all (new config) rs).queues ≡ (
        if config.enabled
        then newest (max 1 config.max_queue_size_per_user) (messages_for u rs)
        else [])
unfolding new get
queue-newest config rs u = elim (Bool-cases config.enabled) [
  | inl on ↦ ground (arith, members-enqueue_all (new config) rs u [] on (new_empty config u))
  | inr off ↦
      ground (arith, ap (λ b. members u b.queues) (enqueue_all_disabled (new config) rs off))
]

-- The outcome (the new state and the answer) for a switch and the messages of the user.
abbrev DrainOutcome :
    Chrono
    → (StoredMessage → ℕ)
    → MemoryQueueBackend
    → Str
    → Bool
    → List StoredMessage
    → MemoryQueueBackend × Result DrainResult QueueBackendError
    → Type 0
DrainOutcome c now b u enabled messages (b', r) =
    let q = if enabled then messages else [] in
    (r
      ≡ ok (record {
        messages = live (expired_at c now b) q;
        expired = count (expired_at c now b) q;
      }))
    × ((j : Str) → get j b'.queues ≡ (if enabled && j == u then none else get j b.queues))
    × (b'.config ≡ b.config)

drain_result_lem :
    (c : Chrono) (now : StoredMessage → ℕ) (b : MemoryQueueBackend) (q : List StoredMessage)
    → drain_result c now b q
      ≡ record { messages = live (expired_at c now b) q; expired = count (expired_at c now b) q }
unfolding drain_result retain
drain_result_lem c now b [] = refl
drain_result_lem c now b (x ∷ q) =
    ap (λ r. record { messages = r.0; expired = r.1 })
      (drain_loop_lem (expired_at c now b) (x ∷ q) [] 0)
    ∙ ap (λ n. record { messages = live (expired_at c now b) (x ∷ q); expired = n }) (omega arith)

drain_outcome :
    (c : Chrono) (now : StoredMessage → ℕ) (b : MemoryQueueBackend) (u : Str) (enabled : Bool)
    (o : Option (List StoredMessage))
    → get u b.queues ≡ o
    → DrainOutcome c now b u enabled
        (elim o [ none ↦ [] | some q ↦ q ])
        (if enabled then drain_found c now b u o else (b, ok empty_drain))
unfolding drain_found retain
drain_outcome c now b u false o h = (refl, λ j. refl, refl)
drain_outcome c now b u true none h = (refl, λ j. ground arith, refl)
drain_outcome c now b u true (some q) h =
    (ap ok (drain_result_lem c now b q), λ j. get-remove j u b.queues, refl)

-- `drain` hands over exactly the messages of the user's queue that are not expired, oldest first, and
-- the number of those that are; it removes this queue and leaves every other as it was. A disabled
-- backend hands over nothing and keeps its queues.
pub drain_lem :
    (c : Chrono) (now : StoredMessage → ℕ) (b : MemoryQueueBackend) (u : Str)
    → DrainOutcome c now b u b.config.enabled (members u b.queues) (drain c now b u)
unfolding drain
drain_lem c now b u = drain_outcome c now b u b.config.enabled (get u b.queues) refl

config-enqueue_all :
    (b : MemoryQueueBackend) (rs : List Request) → (enqueue_all b rs).config ≡ b.config
unfolding enqueue_all
config-enqueue_all b [] = refl
config-enqueue_all b (r ∷ rs) =
    config-enqueue_all (enqueue r.id r.now b r.user_id r.event).0 rs ∙ config-enqueue b r

-- What a backend that has been new and has served the requests holds for a user.
abbrev pub kept : QueueConfig → List Request → Str → List StoredMessage
kept config rs u =
    if config.enabled then newest (max 1 config.max_queue_size_per_user) (messages_for u rs) else []

if-if :
    (t : Bool) (x : List StoredMessage)
    → (if t then if t then x else [] else []) ≡ (if t then x else [])
if-if true x = refl
if-if false x = refl

-- Draining after any enqueues on a new backend hands over exactly those of the newest
-- `max_queue_size_per_user` messages for the user that are not expired, in the order in which they
-- were enqueued, with the number of the expired ones; a disabled backend hands over nothing.
pub drain-enqueue_all :
    (c : Chrono) (now : StoredMessage → ℕ) (config : QueueConfig) (rs : List Request) (u : Str)
    → let stale = expired_at c now (new config) in
      (drain c now (enqueue_all (new config) rs) u).1
      ≡ ok (record {
        messages = live stale (kept config rs u);
        expired = count stale (kept config rs u);
      })
unfolding new
drain-enqueue_all c now config rs u =
    (drain_lem c now b u).0
    ∙ ap (λ g. answer g (members u b.queues)) (config-enqueue_all (new config) rs)
    ∙ ap (answer config) (queue-newest config rs u)
    ∙ ap (λ q. ok (record { messages = live (stale config) q; expired = count (stale config) q }))
        (if-if config.enabled _)
  where
    b : MemoryQueueBackend
    b = enqueue_all (new config) rs

    stale : QueueConfig → StoredMessage → Bool
    stale g = expired_at c now (record { queues = []; config = g })

    answer : QueueConfig → List StoredMessage → Result DrainResult QueueBackendError
    answer g q =
        let l = if g.enabled then q else [] in
        ok (record { messages = live (stale g) l; expired = count (stale g) l })
