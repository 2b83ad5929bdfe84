-- ===== src/Dispatcher/Model.antt =====
-- `NotificationDispatcher` of src/domain/notification/dispatcher.rs over the registry of connections
-- and the backends in memory; logging and the exported metrics are left out.
use ara_notification_service.Common.{
  ℕ, ◌+◌, Bool, true, false, leb, ltb, if◌then◌else◌, Option, none, some, List, [], ◌∷◌, length,
  is_empty, retain, Str, str_key, nat_key, ◌==◌, is_ok, Chrono, fetch_add,
}
use ara_notification_service.Notification.Types.{NotificationEvent}
use ara_notification_service.Connection.Types.{ConnectionHandle, ConnectionManager}
use ara_notification_service.Connection.Queries.{get_user_connections}
use ara_notification_service.Queue.MemoryBackend.{MemoryQueueBackend, enqueue}
use ara_notification_service.Ack.Memory.{MemoryAckBackend, track}
use ara_notification_service.Tenant.Context.{tenant_scoped_key, default_tenant_id}

-- What a dispatch meets outside the dispatcher: the clock, which connections take the message, the
-- order in which concurrent sends end (the crate futures), when each send ended, and the identifier
-- and time of each message that it queues, by their number.
pub record World : Type 0 where
  pub chrono : Chrono
  pub now : ℕ
  pub takes : ConnectionHandle → Bool
  pub unordered : List ConnectionHandle → List ConnectionHandle
  pub sent_at : ConnectionHandle → ℕ
  pub fresh_id : ℕ → ℕ
  pub queued_at : ℕ → ℕ

pub record DeliveryResult : Type 0 where
  pub notification_id : ℕ
  pub delivered_to : ℕ
  pub failed : ℕ
  pub success : Bool

abbrev pub delivery : ℕ → ℕ → ℕ → DeliveryResult
delivery id delivered failed = record {
  notification_id = id;
  delivered_to = delivered;
  failed = failed;
  success = ltb 0 delivered;
}

pub record DispatcherStats : Type 0 where
  pub total_sent : ℕ
  pub total_delivered : ℕ
  pub total_failed : ℕ
  pub user_notifications : ℕ
  pub broadcast_notifications : ℕ
  pub channel_notifications : ℕ

pub record Dispatcher : Type 0 where
  pub connection_manager : ConnectionManager
  pub queue_backend : Option MemoryQueueBackend
  pub ack_backend : Option MemoryAckBackend
  pub stats : DispatcherStats

unfoldable pub with_backends :
    ConnectionManager → MemoryQueueBackend → MemoryAckBackend → Dispatcher
with_backends m queue ack = record {
  connection_manager = m;
  queue_backend = some queue;
  ack_backend = some ack;
  stats = record {
    total_sent = 0;
    total_delivered = 0;
    total_failed = 0;
    user_notifications = 0;
    broadcast_notifications = 0;
    channel_notifications = 0;
  };
}

unfoldable pub tenant_queue_key : Option Str → Str → Str
unfolding tenant_scoped_key
tenant_queue_key none user_id = tenant_scoped_key default_tenant_id user_id
tenant_queue_key (some t) user_id = tenant_scoped_key t user_id

abbrev pub of_tenant_only : Option Str → List ConnectionHandle → List ConnectionHandle
of_tenant_only none hs = hs
of_tenant_only (some t) hs = retain (λ h. h.tenant_id == t) hs

unfoldable pub get_user_connections_filtered :
    ConnectionManager → Str → Option Str → List ConnectionHandle
unfolding get_user_connections
get_user_connections_filtered m user_id tenant_id =
    of_tenant_only tenant_id (get_user_connections m user_id)

-- The acknowledgment that a successful send waits for, if there is a backend.
abbrev pub track_sent :
    World → ℕ → ConnectionHandle → Option MemoryAckBackend → Option MemoryAckBackend
track_sent w id h none = none
track_sent w id h (some a) = some (track (w.sent_at h) a id h.user_id h.id)

-- The sends in the order in which they end, with the numbers delivered and failed so far.
unfoldable pub send_loop :
    World
    → ℕ
    → List ConnectionHandle
    → Option MemoryAckBackend
    → ℕ
    → ℕ
    → Option MemoryAckBackend × ℕ × ℕ
unfolding track
send_loop w id [] ack delivered failed = (ack, delivered, failed)
send_loop w id (h ∷ hs) ack delivered failed = elim (w.takes h) [
  | true ↦ send_loop w id hs (track_sent w id h ack) (delivered + 1) failed
  | false ↦ send_loop w id hs ack delivered (failed + 1)
]

-- At most three connections are served in turn, more at the same time.
unfoldable pub send_to_connections :
    World → ℕ → List ConnectionHandle → Option MemoryAckBackend → Option MemoryAckBackend × ℕ × ℕ
unfolding send_loop
send_to_connections w id hs ack =
    if is_empty hs
    then (ack, 0, 0)
    else send_loop w id (if leb (length hs) 3 then hs else w.unordered hs) ack 0 0

-- The counters after a notification.
abbrev pub sent_stats : ℕ → ℕ → DispatcherStats → DispatcherStats
sent_stats delivered failed s = record s {
  total_sent = fetch_add s.total_sent 1;
  total_delivered = fetch_add s.total_delivered delivered;
  total_failed = fetch_add s.total_failed failed;
}

abbrev pub count_user : DispatcherStats → DispatcherStats
count_user s = record s { user_notifications = fetch_add s.user_notifications 1 }

abbrev pub count_broadcast : DispatcherStats → DispatcherStats
count_broadcast s = record s { broadcast_notifications = fetch_add s.broadcast_notifications 1 }

abbrev pub count_channel : DispatcherStats → DispatcherStats
count_channel s = record s { channel_notifications = fetch_add s.channel_notifications 1 }

-- The tail of every handler: send, count, report.
unfoldable pub send_and_count :
    World
    → Dispatcher
    → (DispatcherStats → DispatcherStats)
    → NotificationEvent
    → List ConnectionHandle
    → Dispatcher × DeliveryResult
unfolding send_to_connections
send_and_count w d kind event hs =
    let (ack, delivered, failed) = send_to_connections w event.id hs d.ack_backend in
    (
      record d { ack_backend = ack; stats = kind (sent_stats delivered failed d.stats) },
      delivery event.id delivered failed,
    )

-- `queue.enqueue` of the `n`th message queued, and whether it was taken; nothing for no backend or one
-- that is switched off.
unfoldable pub enqueue_offline :
    World
    → ℕ
    → Option MemoryQueueBackend
    → Str
    → NotificationEvent
    → Option MemoryQueueBackend × Bool
unfolding enqueue
enqueue_offline w n none key event = (none, false)
enqueue_offline w n (some q) key event =
    let (q', r) = enqueue (w.fresh_id n) (w.queued_at n) q key event in
    if q.config.enabled then (some q', is_ok r) else (some q, false)
