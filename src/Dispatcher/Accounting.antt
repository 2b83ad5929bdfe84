-- ===== src/Dispatcher/Accounting.antt =====
-- What a dispatch reports and counts, for every kind of target.
use ara_notification_service.Common.{
  ℕ, ◌+◌, ◌%◌, ◌^◌, ◌≡◌, refl, ◌∙◌, ap, arith, Bool, true, false, if◌then◌else◌, Option, List, [],
  ◌∷◌, length, is_empty, count, Str, fetch_add,
}
use ara_notification_service.Notification.Types.{
  NotificationEvent, is_expired, NotificationTarget, user, user_list, broadcast, channel,
  channel_list,
}
use ara_notification_service.Connection.Types.{ConnectionHandle, ConnectionManager}
use ara_notification_service.Connection.Queries.{get_channel_connections}
use ara_notification_service.Queue.MemoryBackend.{MemoryQueueBackend}
use ara_notification_service.Ack.Memory.{MemoryAckBackend}
use ara_notification_service.Dispatcher.Model.{
  World, Dispatcher, DispatcherStats, DeliveryResult, delivery, get_user_connections_filtered,
  send_to_connections, send_and_count, sent_stats, count_user, count_broadcast, count_channel,
  enqueue_offline, tenant_queue_key,
}
use ara_notification_service.Dispatcher.Handlers.{
  send_to_offline, send_to_user_for_tenant, collect, queue_offline, chunks, batch_loop,
  send_to_users_for_tenant, broadcast_connections, broadcast_for_tenant, send_to_channel,
  channels_loop, send_to_channels, handle, dispatch_for_tenant,
}
use ara_notification_service.Dispatcher.Batches.{
  users_connections, count-collect, batches_count, batches_count-chunks,
}
use ara_notification_service.Dispatcher.Recipients.{IsShuffle, refuses, send_to_connections-counts}

-- The connections to which a notification is sent.
abbrev pub recipients : ConnectionManager → Option Str → NotificationTarget → List ConnectionHandle
recipients m t (user u) = get_user_connections_filtered m u t
recipients m t (user_list us) = users_connections m t us
recipients m t broadcast = broadcast_connections m t
recipients m t (channel ch) = get_channel_connections m ch
recipients m t (channel_list chs) = (channels_loop m chs ([], [])).1

-- The report and the counters for a notification sent to these connections.
abbrev pub Accounts :
    World
    → Dispatcher
    → NotificationEvent
    → ℕ
    → List ConnectionHandle
    → Dispatcher × DeliveryResult
    → Type 0
Accounts w d event sent hs (d', r) =
    (r ≡ delivery event.id (count w.takes hs) (count (refuses w) hs))
    × (d'.stats.total_sent % 2 ^ 64 ≡ (d.stats.total_sent + sent) % 2 ^ 64)
    × (d'.stats.total_delivered % 2 ^ 64 ≡ (d.stats.total_delivered + count w.takes hs) % 2 ^ 64)
    × (d'.stats.total_failed % 2 ^ 64 ≡ (d.stats.total_failed + count (refuses w) hs) % 2 ^ 64)
    × (d'.connection_manager ≡ d.connection_manager)

module _ (w : World) (sh : IsShuffle w) where
  -- A handler counts the kind of the notification and leaves the totals to `send_and_count`.
  abbrev KeepsTotals : (DispatcherStats → DispatcherStats) → Type 0
  KeepsTotals kind =
      (s : DispatcherStats)
      → ((kind s).total_sent ≡ s.total_sent)
        × ((kind s).total_delivered ≡ s.total_delivered)
        × ((kind s).total_failed ≡ s.total_failed)

  send_and_count-Accounts :
      (d : Dispatcher) (kind : DispatcherStats → DispatcherStats) (event : NotificationEvent)
      (hs : List ConnectionHandle)
      → KeepsTotals kind
      → Accounts w d event 1 hs (send_and_count w d kind event hs)
  unfolding send_and_count
  send_and_count-Accounts d kind event hs keeps =
      let (n, k) = send_to_connections-counts w event.id hs d.ack_backend sh in
      let (a, b, c) = keeps (
        sent_stats (send_to_connections w event.id hs d.ack_backend).1
          (send_to_connections w event.id hs d.ack_backend).2 d.stats) in
      (
        ap (λ x. delivery event.id x (send_to_connections w event.id hs d.ack_backend).2) n
            ∙ ap (delivery event.id (count w.takes hs)) k,
        omega (arith, a),
        omega (arith, b, n),
        omega (arith, c, k),
        refl,
      )

  send_to_offline-Accounts :
      (d : Dispatcher) (u : Str) (event : NotificationEvent) (t : Option Str)
      → Accounts w d event 1 [] (send_to_offline w d u event t)
  unfolding send_to_offline
  send_to_offline-Accounts d u event t = go q.0 q.1
    where
      q : Option MemoryQueueBackend × Bool
      q = enqueue_offline w 0 d.queue_backend (tenant_queue_key t u) event

      go :
          (q : Option MemoryQueueBackend) (taken : Bool)
          → Accounts w d event 1 [] (
              if taken
              then (
                record d {
                  queue_backend = q;
                  stats =
                      count_user (record d.stats { total_sent = fetch_add d.stats.total_sent 1 });
                },
                delivery event.id 0 0,
              )
              else send_and_count w (record d { queue_backend = q }) count_user event [])
      go q true = (refl, omega arith, omega arith, omega arith, refl)
      go q false =
          send_and_count-Accounts (record d { queue_backend = q }) count_user event []
            (λ s. (refl, refl, refl))

  send_to_user-Accounts :
      (d : Dispatcher) (u : Str) (event : NotificationEvent) (t : Option Str)
      → Accounts w d event 1
          (get_user_connections_filtered d.connection_manager u t)
          (send_to_user_for_tenant w d u event t)
  unfolding send_to_user_for_tenant
  send_to_user-Accounts d u event t = go (get_user_connections_filtered d.connection_manager u t)
    where
      go :
          (hs : List ConnectionHandle)
          → Accounts w d event 1 hs (
              if is_empty hs
              then send_to_offline w d u event t
              else send_and_count w d count_user event hs)
      go [] = send_to_offline-Accounts d u event t
      go (h ∷ hs) = send_and_count-Accounts d count_user event (h ∷ hs) (λ s. (refl, refl, refl))

  batch_loop-counts :
      (m : ConnectionManager) (t : Option Str) (event : NotificationEvent) (bs : List (List Str))
      (q : Option MemoryQueueBackend) (ack : Option MemoryAckBackend) (n delivered failed : ℕ)
      → let (q', ack', delivered', failed') = batch_loop w m t event bs q ack n delivered failed in
        (delivered' ≡ delivered + batches_count w.takes m t bs)
        × (failed' ≡ failed + batches_count (refuses w) m t bs)
  unfolding batch_loop
  batch_loop-counts m t event [] q ack n delivered failed = (omega arith, omega arith)
  batch_loop-counts m t event (b ∷ bs) q ack n delivered failed =
      let found = collect m t b in
      let sent = send_to_connections w event.id found.0 ack in
      let (more, lost) = send_to_connections-counts w event.id found.0 ack sh in
      let (x, y) =
        batch_loop-counts m t event bs (queue_offline w n q t found.1 event) sent.0
          (n + length found.1) (delivered + sent.1) (failed + sent.2) in
      (
        omega (arith, x, more, count-collect w.takes m t b),
        omega (arith, y, lost, count-collect (refuses w) m t b),
      )

  send_to_users-Accounts :
      (d : Dispatcher) (us : List Str) (event : NotificationEvent) (t : Option Str)
      → Accounts w d event 1
          (users_connections d.connection_manager t us)
          (send_to_users_for_tenant w d us event t)
  unfolding send_to_users_for_tenant
  send_to_users-Accounts d us event t =
      let m = d.connection_manager in
      let bs = chunks (length us) 100 us in
      let out = batch_loop w m t event bs d.queue_backend d.ack_backend 0 0 0 in
      let (x, y) = batch_loop-counts m t event bs d.queue_backend d.ack_backend 0 0 0 in
      let delivered : out.2 ≡ count w.takes (users_connections m t us) =
        omega (arith, x, batches_count-chunks w.takes m t (length us) us (omega arith)) in
      let failed : out.3 ≡ count (refuses w) (users_connections m t us) =
        omega (arith, y, batches_count-chunks (refuses w) m t (length us) us (omega arith)) in
      (
        ap (λ a. delivery event.id a out.3) delivered
            ∙ ap (delivery event.id (count w.takes (users_connections m t us))) failed,
        omega arith,
        omega (arith, delivered),
        omega (arith, failed),
        refl,
      )

  handle-Accounts :
      (d : Dispatcher) (target : NotificationTarget) (event : NotificationEvent) (t : Option Str)
      → Accounts w d event 1 (recipients d.connection_manager t target) (handle w d target event t)
  unfolding broadcast_for_tenant send_to_channel send_to_channels
  handle-Accounts d (user u) event t = send_to_user-Accounts d u event t
  handle-Accounts d (user_list us) event t = send_to_users-Accounts d us event t
  handle-Accounts d broadcast event t =
      send_and_count-Accounts d count_broadcast event (recipients d.connection_manager t broadcast)
        (λ s. (refl, refl, refl))
  handle-Accounts d (channel ch) event t =
      send_and_count-Accounts d count_channel event (recipients d.connection_manager t (channel ch))
        (λ s. (refl, refl, refl))
  handle-Accounts d (channel_list chs) event t =
      send_and_count-Accounts d count_channel event
        (recipients d.connection_manager t (channel_list chs)) (λ s. (refl, refl, refl))

  -- For every kind of target, if concurrent sends end once each: a dispatch of an expired notification
  -- reports and counts nothing; any other is counted as sent once, and reports and counts as delivered
  -- the recipients that took the message and as failed those that did not. The registry stays.
  pub dispatch-Accounts :
      (d : Dispatcher) (target : NotificationTarget) (event : NotificationEvent) (t : Option Str)
      → let late = is_expired w.chrono w.now event in
        Accounts w d event
          (if late then 0 else 1)
          (if late then [] else recipients d.connection_manager t target)
          (dispatch_for_tenant w d target event t)
  unfolding dispatch_for_tenant
  dispatch-Accounts d target event t = go (is_expired w.chrono w.now event)
    where
      go :
          (late : Bool)
          → Accounts w d event
              (if late then 0 else 1)
              (if late then [] else recipients d.connection_manager t target)
              (if late then (d, delivery event.id 0 0) else handle w d target event t)
      go true = (refl, omega arith, omega arith, omega arith, refl)
      go false = handle-Accounts d target event t
