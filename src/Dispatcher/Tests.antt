-- ===== src/Dispatcher/Tests.antt =====
-- Runs of the dispatcher, and the theorems at concrete inputs.
use ara_notification_service.Common.{
  ℕ, false, List, ◌++◌, arith, ◌≡◌, refl, true, if◌then◌else◌, some, [], ◌∷◌, str_key, nat_key, get,
  insert, Str-discrete, ℕ_discrete, index_push, index_insert,
}
use ara_notification_service.Fixtures.{clock, alice, bob, acme, orders}
use ara_notification_service.Notification.Types.{
  NotificationEvent, new_event, broadcast, is_expired,
}
use ara_notification_service.Notification.Json.{null}
use ara_notification_service.Connection.Types.{ConnectionManager, default_limits, new_handle}
use ara_notification_service.Connection.Manager.{with_limits, register, subscribe_to_channel}
use ara_notification_service.Connection.Lookup.{Exact}
use ara_notification_service.Connection.Calls.{registers, subscribes, step, Reachable, start, next}
use ara_notification_service.Connection.Reachable.{Reachable-IsValid}
use ara_notification_service.Queue.Models.{QueueConfig}
use ara_notification_service.Queue.Models
use ara_notification_service.Queue.MemoryBackend.{MemoryQueueBackend}
use ara_notification_service.Queue.MemoryBackend
use ara_notification_service.Ack.Memory
use ara_notification_service.Dispatcher.Model.{World, Dispatcher, with_backends}
use ara_notification_service.Dispatcher.Handlers.{channels_loop, dispatch_for_tenant}
use ara_notification_service.Dispatcher.Recipients.{IsShuffle, of_channels, channels_loop-Exact}
use ara_notification_service.Dispatcher.Accounting.{Accounts, recipients, dispatch-Accounts}
use ara_notification_service.Dispatcher.Offline.{
  addressed, queue_key, Queued, messages, dispatch_all, reports, undelivered, dispatch-Queued,
}
use ara_notification_service.Queue.Newest.{newest}
use ara_notification_service.Queue.Enqueues.{bound}

-- Alice has connection 7, which listens to the orders.
abbrev one : ConnectionManager
one = (register clock 100 7 (with_limits default_limits) alice acme [] 0).0

abbrev listening : ConnectionManager
listening = (subscribe_to_channel one 7 orders).0

one-Reachable : Reachable clock default_limits one
unfolding with_limits get step
one-Reachable = next (registers 100 7 alice acme [] 0) refl start

listening-Reachable : Reachable clock default_limits listening
unfolding step
listening-Reachable = next (subscribes 7 orders) tt one-Reachable

-- Every connection takes the message, and concurrent sends end in their order.
abbrev calm : World
calm = record {
  chrono = clock;
  now = 100;
  takes = λ h. true;
  unordered = λ hs. hs;
  sent_at = λ h. 100;
  fresh_id = λ n. n;
  queued_at = λ n. 100;
}

calm-IsShuffle : IsShuffle calm
calm-IsShuffle p hs = refl

abbrev queue : MemoryQueueBackend
queue = MemoryBackend.new (record Models.default_config { enabled = true })

abbrev dispatcher : Dispatcher
dispatcher = with_backends listening queue (Memory.new Memory.default_config)

abbrev event : NotificationEvent
event = new_event 1 90 orders null bob

channels_loop-Exact_example :
    Exact listening
      (of_channels (orders ∷ bob ∷ orders ∷ []))
      (channels_loop listening (orders ∷ bob ∷ orders ∷ []) ([], [])).1
channels_loop-Exact_example =
    channels_loop-Exact listening (Reachable-IsValid clock default_limits listening-Reachable)
      (orders ∷ bob ∷ orders ∷ [])

dispatch-Accounts_example :
    Accounts calm dispatcher event
      (if is_expired clock 100 event then 0 else 1)
      (if is_expired clock 100 event
        then []
        else recipients dispatcher.connection_manager (some acme) broadcast)
      (dispatch_for_tenant calm dispatcher broadcast event (some acme))
dispatch-Accounts_example =
    dispatch-Accounts calm calm-IsShuffle dispatcher broadcast event (some acme)

-- Bob has no connection, so both notifications wait under the key of the tenant.
abbrev sent : List (World × NotificationEvent)
sent = (calm, event) ∷ (record calm { now = 110 }, record event { id = 2 }) ∷ []

nobody : (i : ℕ) → addressed (some acme) bob (get i listening.connections) ≡ false
unfolding with_limits register subscribe_to_channel get insert Str-discrete ℕ_discrete index_push
    index_insert new_handle
nobody i = ground arith

dispatch-Queued_example :
    Queued queue
      (queue_key (some acme) bob)
      (newest (bound queue) ([] ++ messages sent))
      (dispatch_all dispatcher bob (some acme) sent)
    × (reports dispatcher bob (some acme) sent ≡ undelivered sent)
unfolding is_expired with_backends MemoryBackend.new new_event get Str-discrete ℕ_discrete
dispatch-Queued_example =
    dispatch-Queued dispatcher bob (some acme) queue sent []
      (Reachable-IsValid clock default_limits listening-Reachable) nobody (refl, (refl, tt)) refl
      refl refl
