-- ===== src/Queue/Enqueues.antt =====
-- Sequences of calls of `MemoryQueueBackend::enqueue` (src/domain/queue/memory_backend.rs).
use mathlib.Core.List.{append_assoc, append-nil}
use ara_notification_service.Common.{
  ℕ, ◌≡◌, refl, sym, ◌∙◌, ap, max, arith, Bool, true, false, if◌then◌else◌, List, [], ◌∷◌, ◌++◌,
  Str, str_key, ◌==◌, members, get-insert,
}
use ara_notification_service.Notification.Types.{NotificationEvent}
use ara_notification_service.Queue.Core.{enqueue_message, push_bounded}
use ara_notification_service.Queue.Newest.{newest, push_bounded-newest}
use ara_notification_service.Queue.Models.{StoredMessage, new_stored}
use ara_notification_service.Queue.MemoryBackend.{MemoryQueueBackend, enqueue}

-- A request to queue: the identifier and the time that the message gets, the user, the event.
pub record Request : Type 0 where
  pub id : ℕ
  pub now : ℕ
  pub user_id : Str
  pub event : NotificationEvent

unfoldable pub enqueue_all : MemoryQueueBackend → List Request → MemoryQueueBackend
enqueue_all b [] = b
enqueue_all b (r ∷ rs) = enqueue_all (enqueue r.id r.now b r.user_id r.event).0 rs

-- The messages of the requests for a user.
abbrev pub messages_for : Str → List Request → List StoredMessage
messages_for u [] = []
messages_for u (r ∷ rs) =
    if u == r.user_id then new_stored r.id r.now r.event ∷ messages_for u rs else messages_for u rs

abbrev pub bound : MemoryQueueBackend → ℕ
bound b = max 1 b.config.max_queue_size_per_user

pub config-enqueue :
    (b : MemoryQueueBackend) (r : Request)
    → (enqueue r.id r.now b r.user_id r.event).0.config ≡ b.config
unfolding enqueue
config-enqueue b r = ground arith

pub members-enqueue :
    (b : MemoryQueueBackend) (r : Request) (u : Str) (h : List StoredMessage)
    → b.config.enabled ≡ true
    → members u b.queues ≡ newest (bound b) h
    → members u (enqueue r.id r.now b r.user_id r.event).0.queues
      ≡ newest (bound b) (if u == r.user_id then h ++ new_stored r.id r.now r.event ∷ [] else h)
unfolding enqueue enqueue_message
members-enqueue b r u h on e = ground (
  arith,
  get-insert u r.user_id
      (push_bounded b.config.max_queue_size_per_user (members r.user_id b.queues)
        (new_stored r.id r.now r.event))
      b.queues,
  push_bounded-newest b.config.max_queue_size_per_user h (new_stored r.id r.now r.event),
  e,
)

pub bound-enqueue :
    (b : MemoryQueueBackend) (r : Request)
    → bound (enqueue r.id r.now b r.user_id r.event).0 ≡ bound b
bound-enqueue b r = ap (λ c. max 1 c.max_queue_size_per_user) (config-enqueue b r)

pub enabled-enqueue :
    (b : MemoryQueueBackend) (r : Request)
    → (enqueue r.id r.now b r.user_id r.event).0.config.enabled ≡ b.config.enabled
enabled-enqueue b r = ap (λ c. c.enabled) (config-enqueue b r)

-- With the queue of a user holding the newest of a history, any further requests extend the history.
pub members-enqueue_all :
    (b : MemoryQueueBackend) (rs : List Request) (u : Str) (h : List StoredMessage)
    → b.config.enabled ≡ true
    → members u b.queues ≡ newest (bound b) h
    → members u (enqueue_all b rs).queues ≡ newest (bound b) (h ++ messages_for u rs)
unfolding enqueue_all
members-enqueue_all b [] u h on e = e ∙ ap (newest (bound b)) (sym (append-nil h))
members-enqueue_all b (r ∷ rs) u h on e =
    let b' = (enqueue r.id r.now b r.user_id r.event).0 in
    let h' = if u == r.user_id then h ++ new_stored r.id r.now r.event ∷ [] else h in
    members-enqueue_all b' rs u h' (enabled-enqueue b r ∙ on)
      (members-enqueue b r u h on e ∙ ap (λ n. newest n h') (sym (bound-enqueue b r)))
    ∙ ap (λ n. newest n (h' ++ messages_for u rs)) (bound-enqueue b r)
    ∙ ap (newest (bound b)) (history (u == r.user_id))
  where
    history :
        (t : Bool)
        → (if t then h ++ new_stored r.id r.now r.event ∷ [] else h) ++ messages_for u rs
          ≡ h
            ++ (if t then new_stored r.id r.now r.event ∷ messages_for u rs else messages_for u rs)
    history true = append_assoc h (new_stored r.id r.now r.event ∷ []) (messages_for u rs)
    history false = refl
