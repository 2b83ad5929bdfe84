-- ===== src/Queue/Tests.antt =====
-- Runs of the queues, and the theorems at concrete inputs.
use ara_notification_service.Common.{
  ℕ, ◌≡◌, refl, true, false, List, [], ◌∷◌, str_key, get, insert, remove, Str-discrete, ℕ_discrete,
  members, count, ok, Chrono,
}
use ara_notification_service.Fixtures.{clock, alice, bob, orders}
use ara_notification_service.Notification.Types.{NotificationEvent, new_event}
use ara_notification_service.Notification.Json.{null}
use ara_notification_service.Queue.Models.{QueueConfig, StoredMessage, default_config}
use ara_notification_service.Queue.MemoryBackend.{new, enqueue, drain, expired_at}
use ara_notification_service.Queue.UserQueue
use ara_notification_service.Queue.Newest.{newest}
use ara_notification_service.Queue.Draining.{live}
use ara_notification_service.Queue.Cleanup.{IsQueues}
use ara_notification_service.Queue.Enqueues.{Request, enqueue_all, messages_for}
use ara_notification_service.Queue.MemoryLaws.{kept, queue-newest, drain-enqueue_all}
use ara_notification_service.Queue.MemoryRuns.{Call, enqueues, run, IsBounded, run-IsBounded}
use ara_notification_service.Queue.Replay.{ReplayOutcome, replay_lem}

abbrev small : QueueConfig
small = record default_config {
  enabled = true;
  max_queue_size_per_user = 2;
  message_ttl_seconds = 60;
}

abbrev event : ℕ → NotificationEvent
event id = new_event id 0 orders null bob

abbrev requests : List Request
requests =
    record { id = 1; now = 10; user_id = alice; event = event 1 }
    ∷ record { id = 2; now = 20; user_id = bob; event = event 2 }
    ∷ record { id = 3; now = 30; user_id = alice; event = event 3 }
    ∷ record { id = 4; now = 50; user_id = alice; event = event 4 }
    ∷ []

abbrev ids : List StoredMessage → List ℕ
ids [] = []
ids (x ∷ xs) = x.id ∷ ids xs

bounded_test : ids (members alice (enqueue_all (new small) requests).queues) ≡ 3 ∷ 4 ∷ []
unfolding enqueue_all enqueue new get insert Str-discrete ℕ_discrete
bounded_test = refl

abbrev drained_ids : Chrono → List ℕ
drained_ids c = elim (drain c (λ x. 100) (enqueue_all (new small) requests) alice).1 [
  | ok r ↦ ids r.messages
  | _ ↦ []
]

expiry_test : drained_ids clock ≡ 4 ∷ []
unfolding enqueue_all enqueue new drain get insert Str-discrete ℕ_discrete
expiry_test = refl

queue-newest_example :
    members alice (enqueue_all (new small) requests).queues ≡ newest 2 (messages_for alice requests)
queue-newest_example = queue-newest small requests alice

drain-enqueue_all_example :
    (drain clock (λ x. 100) (enqueue_all (new small) requests) alice).1
    ≡ ok (record {
      messages = live (expired_at clock (λ x. 100) (new small)) (kept small requests alice);
      expired = count (expired_at clock (λ x. 100) (new small)) (kept small requests alice);
    })
drain-enqueue_all_example = drain-enqueue_all clock (λ x. 100) small requests alice

abbrev calls : List Call
calls = enqueues 1 10 alice (event 1) ∷ enqueues 2 50 bob (event 2) ∷ []

run-IsBounded_example :
    IsBounded 2 (run clock (new small) calls) × IsQueues (run clock (new small) calls).queues
run-IsBounded_example = run-IsBounded clock small calls

abbrev waiting : UserQueue.UserMessageQueue
waiting =
    (UserQueue.enqueue 2 10 (UserQueue.enqueue 1 10 (UserQueue.new small) alice (event 1)).0 alice
      (event 2)).0

replay_lem_example :
    ReplayOutcome clock
      (λ x. 20)
      (λ x. false)
      waiting
      alice
      waiting.config.enabled
      (members alice waiting.queues)
      (UserQueue.replay clock (λ x. 20) (λ x. false) waiting alice)
replay_lem_example = replay_lem clock (λ x. 20) (λ x. false) waiting alice

-- A failed send loses the messages behind it.
loss_test :
    UserQueue.queue_size (UserQueue.replay clock (λ x. 20) (λ x. false) waiting alice).0 alice ≡ 0
unfolding UserQueue.queue_size UserQueue.replay UserQueue.enqueue UserQueue.new get insert remove
    Str-discrete ℕ_discrete
loss_test = refl
