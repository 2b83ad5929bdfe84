-- ===== src/Dispatcher/Offline.antt =====
-- Notifications to users who are offline: `send_to_user_for_tenant` and the queue in memory.
use mathlib.Core.Path.{subst}
use mathlib.Core.List.{append_assoc, append-nil}
use ara_notification_service.Common.{
  ℕ, ◌≡◌, refl, sym, max, Bool, false, ◌∷◌, ◌++◌, get, nat_key, retain, HashMap, ◌∙◌, ap, arith,
  true, false, if◌then◌else◌, Option, none, some, List, [], Str, str_key, ◌==◌, ==_iff, members,
  get-insert, ok, fetch_add,
}
use ara_notification_service.Connection.Types.{ConnectionHandle, ConnectionManager}
use ara_notification_service.Connection.Queries.{get_user_connections}
use ara_notification_service.Connection.Valid.{IsValid, of_user}
use ara_notification_service.Connection.Lookup.{get_user_connections-Exact}
use ara_notification_service.Connection.Narrowed.{of_user_in, Exact-empty, user_in_tenant-Exact}
use ara_notification_service.Tenant.Context.{default_tenant_id, colon, tenant_scoped_key}
use ara_notification_service.Queue.Newest.{newest, push_bounded-newest}
use ara_notification_service.Queue.Enqueues.{bound}
use ara_notification_service.Notification.Types.{NotificationEvent, is_expired, user}
use ara_notification_service.Queue.Core.{push_bounded, enqueue_message}
use ara_notification_service.Queue.Models.{StoredMessage, new_stored}
use ara_notification_service.Queue.MemoryBackend.{MemoryQueueBackend, enqueue}
use ara_notification_service.Dispatcher.Model.{
  World, Dispatcher, DeliveryResult, delivery, tenant_queue_key, get_user_connections_filtered,
  count_user, enqueue_offline,
}
use ara_notification_service.Dispatcher.Handlers.{
  send_to_offline, send_to_user_for_tenant, dispatch_for_tenant,
}

-- What waits for a key.
abbrev pub waiting : Str → Option MemoryQueueBackend → List StoredMessage
waiting key none = []
waiting key (some q) = members key q.queues

enqueue_enabled :
    (id now : ℕ) (q : MemoryQueueBackend) (key : Str) (event : NotificationEvent)
    → q.config.enabled ≡ true
    → enqueue id now q key event ≡ (
      record q {
        queues =
            enqueue_message q.config.max_queue_size_per_user q.queues key (new_stored id now event);
      },
      ok tt,
    )
unfolding enqueue
enqueue_enabled id now q key event on = ground arith

-- The state and the report that the dispatch comes to.
queued :
    World → Dispatcher → NotificationEvent → MemoryQueueBackend → Str → Dispatcher × DeliveryResult
queued w d event q key = (
  record d {
    queue_backend = some (record q {
      queues =
          enqueue_message q.config.max_queue_size_per_user q.queues key
            (new_stored (w.fresh_id 0) (w.queued_at 0) event);
    });
    stats = count_user (record d.stats { total_sent = fetch_add d.stats.total_sent 1 });
  },
  delivery event.id 0 0,
)

send_to_offline-queued :
    (w : World) (d : Dispatcher) (u : Str) (event : NotificationEvent) (t : Option Str)
    (q : MemoryQueueBackend)
    → d.queue_backend ≡ some q
    → q.config.enabled ≡ true
    → send_to_offline w d u event t ≡ queued w d event q (tenant_queue_key t u)
unfolding send_to_offline enqueue_offline queued
send_to_offline-queued w d u event t q backend on =
    ground (arith, enqueue_enabled (w.fresh_id 0) (w.queued_at 0) q (tenant_queue_key t u) event on)

dispatch-offline :
    (w : World) (d : Dispatcher) (u : Str) (event : NotificationEvent) (t : Option Str)
    → is_expired w.chrono w.now event ≡ false
    → get_user_connections_filtered d.connection_manager u t ≡ []
    → dispatch_for_tenant w d (user u) event t ≡ send_to_offline w d u event t
unfolding dispatch_for_tenant send_to_user_for_tenant
dispatch-offline w d u event t late nobody = ground arith

-- The key of a user's queue: that of the default tenant is the user's name, that of any other tenant
-- has the tenant and `:` before the name.
abbrev pub queue_key : Option Str → Str → Str
queue_key none u = u
queue_key (some t) u = if t == default_tenant_id then u else t ++ colon ∷ u

tenant_queue_key_lem : (t : Option Str) (u : Str) → tenant_queue_key t u ≡ queue_key t u
unfolding tenant_queue_key tenant_scoped_key
tenant_queue_key_lem none u = ground arith
tenant_queue_key_lem (some t) u = ground arith

-- Is there a connection of the user, in the tenant if one is given?
abbrev pub addressed : Option Str → Str → Option ConnectionHandle → Bool
addressed none u = of_user u
addressed (some t) u = of_user_in u t

get_user_connections_filtered-empty :
    (m : ConnectionManager) (t : Option Str) (u : Str)
    → IsValid m
    → ((i : ℕ) → addressed t u (get i m.connections) ≡ false)
    → get_user_connections_filtered m u t ≡ []
unfolding get_user_connections_filtered
get_user_connections_filtered-empty m none u v nobody =
    Exact-empty m (of_user u) (λ h. true) (get_user_connections m u)
      (get_user_connections-Exact m v u) nobody
get_user_connections_filtered-empty m (some t) u v nobody =
    Exact-empty m (of_user_in u t) (λ h. true)
      (retain (λ h. h.tenant_id == t) (get_user_connections m u)) (user_in_tenant-Exact m v u t)
      nobody

-- Notifications dispatched to the user in turn, each with what it meets: the state in the end, the
-- reports, and the messages that they make.
abbrev pub dispatch_all :
    Dispatcher → Str → Option Str → List (World × NotificationEvent) → Dispatcher
dispatch_all d u t [] = d
dispatch_all d u t ((w, event) ∷ sent) =
    dispatch_all (dispatch_for_tenant w d (user u) event t).0 u t sent

abbrev pub reports :
    Dispatcher → Str → Option Str → List (World × NotificationEvent) → List DeliveryResult
reports d u t [] = []
reports d u t ((w, event) ∷ sent) =
    (dispatch_for_tenant w d (user u) event t).1
    ∷ reports (dispatch_for_tenant w d (user u) event t).0 u t sent

abbrev pub messages : List (World × NotificationEvent) → List StoredMessage
messages [] = []
messages ((w, event) ∷ sent) = new_stored (w.fresh_id 0) (w.queued_at 0) event ∷ messages sent

abbrev pub NoneExpired : List (World × NotificationEvent) → Type 0
NoneExpired [] = Unit
NoneExpired ((w, event) ∷ sent) = (is_expired w.chrono w.now event ≡ false) × NoneExpired sent

-- The messages wait under the key, and the other queues are as they were.
abbrev pub Queued : MemoryQueueBackend → Str → List StoredMessage → Dispatcher → Type 0
Queued q key waits d =
    (k : Str) → waiting k d.queue_backend ≡ (if k == key then waits else members k q.queues)

abbrev pub undelivered : List (World × NotificationEvent) → List DeliveryResult
undelivered [] = []
undelivered ((w, event) ∷ sent) = delivery event.id 0 0 ∷ undelivered sent

-- One more message in a queue that holds the newest of a history.
members-queued :
    (most : ℕ) (h : List StoredMessage) (x : StoredMessage) (k key : Str)
    (queues : HashMap Str (List StoredMessage))
    → members key queues ≡ newest (max 1 most) h
    → members k (enqueue_message most queues key x)
      ≡ (if k == key then newest (max 1 most) (h ++ x ∷ []) else members k queues)
unfolding enqueue_message
members-queued most h x k key queues e = ground (
  arith,
  get-insert k key (push_bounded most (members key queues) x) queues,
  push_bounded-newest most h x,
  e,
)

dispatch-queued :
    (w : World) (d : Dispatcher) (u : Str) (event : NotificationEvent) (t : Option Str)
    (q : MemoryQueueBackend)
    → IsValid d.connection_manager
    → ((i : ℕ) → addressed t u (get i d.connection_manager.connections) ≡ false)
    → is_expired w.chrono w.now event ≡ false
    → d.queue_backend ≡ some q
    → q.config.enabled ≡ true
    → dispatch_for_tenant w d (user u) event t ≡ queued w d event q (queue_key t u)
dispatch-queued w d u event t q v nobody live backend on =
    dispatch-offline w d u event t live
      (get_user_connections_filtered-empty d.connection_manager t u v nobody)
    ∙ send_to_offline-queued w d u event t q backend on
    ∙ ap (queued w d event q) (tenant_queue_key_lem t u)

-- Notifications that are not expired, dispatched in any number to a user of whom the valid registry
-- has no connection (in the tenant, if one is given), with the queue switched on, all report that
-- nothing was delivered and wait in the queue under the key of the tenant and the user. If that queue
-- held the newest messages of a history, up to the bound, it holds in the end the newest of the history
-- with these messages after it in their order; every other queue is as it was.
pub dispatch-Queued :
    (d : Dispatcher) (u : Str) (t : Option Str) (q : MemoryQueueBackend)
    (sent : List (World × NotificationEvent)) (h : List StoredMessage)
    → IsValid d.connection_manager
    → ((i : ℕ) → addressed t u (get i d.connection_manager.connections) ≡ false)
    → NoneExpired sent
    → d.queue_backend ≡ some q
    → q.config.enabled ≡ true
    → members (queue_key t u) q.queues ≡ newest (bound q) h
    → Queued q (queue_key t u) (newest (bound q) (h ++ messages sent)) (dispatch_all d u t sent)
      × (reports d u t sent ≡ undelivered sent)
unfolding queued
dispatch-Queued d u t q [] h v nobody live backend on held =
    (λ k. ground (arith, append-nil h, ==_iff k (queue_key t u)), refl)
dispatch-Queued d u t q ((w, event) ∷ sent) h v nobody live backend on held =
    let key = queue_key t u in
    let x = new_stored (w.fresh_id 0) (w.queued_at 0) event in
    let most = q.config.max_queue_size_per_user in
    let next = record q { queues = enqueue_message most q.queues key x } in
    let one_more = λ (k : Str). members-queued most h x k key q.queues held in
    let (waits, reported) =
      dispatch-Queued (queued w d event q key).0 u t next sent (h ++ x ∷ []) v nobody live.1 refl on
        (ground (arith, one_more key)) in
    subst
      (λ o.
        Queued q key (newest (bound q) (h ++ x ∷ messages sent)) (dispatch_all o.0 u t sent)
        × (o.1 ∷ reports o.0 u t sent ≡ delivery event.id 0 0 ∷ undelivered sent))
      (sym (dispatch-queued w d u event t q v nobody live.0 backend on))
      (
        λ k. ground (arith, waits k, append_assoc h (x ∷ []) (messages sent), one_more k),
        ap (λ l. delivery event.id 0 0 ∷ l) reported,
      )
