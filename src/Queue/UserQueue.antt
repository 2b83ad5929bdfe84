-- ===== src/Queue/UserQueue.antt =====
-- `UserMessageQueue` of src/domain/queue/user_queue.rs. `now` gives the reading of the clock at which
-- each message is tested, and `sends` whether the connection's channel takes it.
use ara_notification_service.Common.{
  ℕ, ◌+◌, Bool, true, false, if◌then◌else◌, Option, none, some, List, [], ◌∷◌, ◌++◌, length,
  HashMap, Str, str_key, get, remove, keys, members, Result, ok, err, Chrono,
}
use ara_notification_service.Notification.Types.{NotificationEvent}
use ara_notification_service.Queue.Core.{enqueue_message, cleanup_loop, total, largest}
use ara_notification_service.Queue.Models.{
  QueueConfig, QueuedMessage, new_queued, queued_is_expired, QueueError, disabled, ReplayResult,
  empty_replay, QueueStats,
}

pub record UserMessageQueue : Type 0 where
  pub queues : HashMap Str (List QueuedMessage)
  pub config : QueueConfig

unfoldable pub new : QueueConfig → UserMessageQueue
new config = record { queues = []; config = config }

unfoldable pub enqueue :
    ℕ
    → ℕ
    → UserMessageQueue
    → Str
    → NotificationEvent
    → UserMessageQueue × Result (Unit {0}) QueueError
unfolding enqueue_message new_queued
enqueue id now b user_id event =
    if b.config.enabled
    then (
      record b {
        queues =
            enqueue_message b.config.max_queue_size_per_user b.queues user_id
              (new_queued id now event);
      },
      ok tt,
    )
    else (b, err disabled)

abbrev pub expired_at : Chrono → (QueuedMessage → ℕ) → UserMessageQueue → QueuedMessage → Bool
expired_at c now b x = queued_is_expired c (now x) x b.config.message_ttl_seconds

-- The loop of `replay`, with the messages sent so far. It stops at the first that cannot be sent.
unfoldable pub replay_loop :
    (QueuedMessage → Bool)
    → (QueuedMessage → Bool)
    → List QueuedMessage
    → ReplayResult
    → List QueuedMessage
    → ReplayResult × List QueuedMessage
replay_loop expired sends [] r sent = (r, sent)
replay_loop expired sends (x ∷ xs) r sent = elim (expired x) [
  | true ↦ replay_loop expired sends xs (record r { expired = r.expired + 1 }) sent
  | false ↦ elim (sends x) [
    | true ↦ replay_loop expired sends xs (record r { replayed = r.replayed + 1 }) (sent ++ x ∷ [])
    | false ↦ (record r { failed = r.failed + 1 }, sent)
  ]
]

unfoldable pub replay_found :
    Chrono
    → (QueuedMessage → ℕ)
    → (QueuedMessage → Bool)
    → UserMessageQueue
    → Str
    → Option (List QueuedMessage)
    → UserMessageQueue × ReplayResult × List QueuedMessage
unfolding replay_loop queued_is_expired
replay_found c now sends b user_id none = (b, empty_replay, [])
replay_found c now sends b user_id (some messages) =
    let (r, sent) = replay_loop (expired_at c now b) sends messages empty_replay [] in
    (record b { queues = remove user_id b.queues }, r, sent)

-- The new state, the counts, and the messages that went out.
unfoldable pub replay :
    Chrono
    → (QueuedMessage → ℕ)
    → (QueuedMessage → Bool)
    → UserMessageQueue
    → Str
    → UserMessageQueue × ReplayResult × List QueuedMessage
unfolding replay_found
replay c now sends b user_id =
    if b.config.enabled
    then replay_found c now sends b user_id (get user_id b.queues)
    else (b, empty_replay, [])

unfoldable pub queue_size : UserMessageQueue → Str → ℕ
queue_size b user_id = length (members user_id b.queues)

unfoldable pub total_queued : UserMessageQueue → ℕ
total_queued b = total b.queues

unfoldable pub users_with_queue : UserMessageQueue → ℕ
users_with_queue b = length b.queues

unfoldable pub cleanup_expired :
    Chrono → (QueuedMessage → ℕ) → UserMessageQueue → UserMessageQueue × ℕ
unfolding cleanup_loop queued_is_expired
cleanup_expired c now b =
    let (queues, removed) = cleanup_loop (expired_at c now b) (keys b.queues) b.queues 0 in
    (record b { queues = queues }, removed)

unfoldable pub clear_user_queue : UserMessageQueue → Str → UserMessageQueue × ℕ
clear_user_queue b user_id =
    (record b { queues = remove user_id b.queues }, length (members user_id b.queues))

unfoldable pub stats : UserMessageQueue → QueueStats
stats b = record {
  enabled = b.config.enabled;
  total_messages = total b.queues;
  users_with_queue = length b.queues;
  max_queue_size = largest b.queues;
  max_queue_size_config = b.config.max_queue_size_per_user;
  message_ttl_seconds = b.config.message_ttl_seconds;
}
