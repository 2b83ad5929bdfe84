-- ===== src/Queue/MemoryBackend.antt =====
-- `MemoryQueueBackend` of src/domain/queue/memory_backend.rs. `now` gives the reading of the clock
-- at which each message is tested.
use ara_notification_service.Common.{
  ℕ, Bool, if◌then◌else◌, Option, none, some, List, [], ◌∷◌, length, is_empty, take, HashMap, Str,
  str_key, get, remove, keys, members, Result, ok, err, Chrono,
}
use ara_notification_service.Notification.Types.{NotificationEvent}
use ara_notification_service.Queue.Core.{enqueue_message, drain_loop, cleanup_loop, total, largest}
use ara_notification_service.Queue.Models.{
  QueueConfig, StoredMessage, new_stored, stored_is_expired, QueueBackendError, backend_disabled,
  DrainResult, empty_drain, QueueBackendStats,
}

pub record MemoryQueueBackend : Type 0 where
  pub queues : HashMap Str (List StoredMessage)
  pub config : QueueConfig

unfoldable pub new : QueueConfig → MemoryQueueBackend
new config = record { queues = []; config = config }

-- With the identifier and the time that the new message takes.
unfoldable pub enqueue :
    ℕ
    → ℕ
    → MemoryQueueBackend
    → Str
    → NotificationEvent
    → MemoryQueueBackend × Result (Unit {0}) QueueBackendError
unfolding enqueue_message new_stored
enqueue id now b user_id event =
    if b.config.enabled
    then (
      record b {
        queues =
            enqueue_message b.config.max_queue_size_per_user b.queues user_id
              (new_stored id now event);
      },
      ok tt,
    )
    else (b, err backend_disabled)

abbrev pub expired_at : Chrono → (StoredMessage → ℕ) → MemoryQueueBackend → StoredMessage → Bool
expired_at c now b x = stored_is_expired c (now x) x b.config.message_ttl_seconds

-- What `drain` does with the messages that it has removed.
unfoldable pub drain_result :
    Chrono → (StoredMessage → ℕ) → MemoryQueueBackend → List StoredMessage → DrainResult
unfolding drain_loop stored_is_expired
drain_result c now b messages =
    let (valid, expired) = drain_loop (expired_at c now b) messages [] 0 in
    if is_empty messages then empty_drain else record { messages = valid; expired = expired }

unfoldable pub drain_found :
    Chrono
    → (StoredMessage → ℕ)
    → MemoryQueueBackend
    → Str
    → Option (List StoredMessage)
    → MemoryQueueBackend × Result DrainResult QueueBackendError
unfolding drain_result
drain_found c now b user_id none = (b, ok empty_drain)
drain_found c now b user_id (some messages) =
    (record b { queues = remove user_id b.queues }, ok (drain_result c now b messages))

unfoldable pub drain :
    Chrono
    → (StoredMessage → ℕ)
    → MemoryQueueBackend
    → Str
    → MemoryQueueBackend × Result DrainResult QueueBackendError
unfolding drain_found
drain c now b user_id =
    if b.config.enabled
    then drain_found c now b user_id (get user_id b.queues)
    else (b, ok empty_drain)

unfoldable pub peek : MemoryQueueBackend → Str → ℕ → Result (List StoredMessage) QueueBackendError
peek b user_id limit =
    if b.config.enabled then ok (take limit (members user_id b.queues)) else ok []

unfoldable pub queue_size : MemoryQueueBackend → Str → Result ℕ QueueBackendError
queue_size b user_id = ok (length (members user_id b.queues))

unfoldable pub cleanup_expired :
    Chrono
    → (StoredMessage → ℕ)
    → MemoryQueueBackend
    → MemoryQueueBackend × Result ℕ QueueBackendError
unfolding cleanup_loop stored_is_expired
cleanup_expired c now b =
    let (queues, removed) = cleanup_loop (expired_at c now b) (keys b.queues) b.queues 0 in
    (record b { queues = queues }, ok removed)

unfoldable pub clear_user_queue :
    MemoryQueueBackend → Str → MemoryQueueBackend × Result ℕ QueueBackendError
clear_user_queue b user_id =
    (record b { queues = remove user_id b.queues }, ok (length (members user_id b.queues)))

abbrev pub memory : Str
memory = b'm' ∷ b'e' ∷ b'm' ∷ b'o' ∷ b'r' ∷ b'y' ∷ []

unfoldable pub stats : MemoryQueueBackend → QueueBackendStats
stats b = record {
  backend_type = memory;
  enabled = b.config.enabled;
  total_messages = total b.queues;
  users_with_queue = length b.queues;
  max_queue_size = largest b.queues;
  max_queue_size_config = b.config.max_queue_size_per_user;
  message_ttl_seconds = b.config.message_ttl_seconds;
}
