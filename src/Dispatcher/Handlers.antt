-- ===== src/Dispatcher/Handlers.antt =====
-- The handlers of `NotificationDispatcher`, one for each kind of target, and `dispatch_for_tenant`.
use ara_notification_service.Common.{
  ℕ, zero, suc, ◌+◌, true, false, if◌then◌else◌, Option, none, some, List, [], ◌∷◌, ◌++◌, length,
  is_empty, contains, take, drop, Str, nat_key, str_key, fetch_add,
}
use ara_notification_service.Notification.Types.{
  NotificationEvent, is_expired, NotificationTarget, user, user_list, broadcast, channel,
  channel_list,
}
use ara_notification_service.Connection.Types.{ConnectionHandle, ConnectionManager}
use ara_notification_service.Connection.Queries.{
  get_tenant_connections, get_channel_connections, get_all_connections,
}
use ara_notification_service.Queue.MemoryBackend.{MemoryQueueBackend}
use ara_notification_service.Dispatcher.Model.{
  World, DeliveryResult, delivery, Dispatcher, tenant_queue_key, get_user_connections_filtered,
  send_to_connections, send_and_count, enqueue_offline, sent_stats, count_user, count_broadcast,
  count_channel,
}
use ara_notification_service.Ack.Memory.{MemoryAckBackend}

-- A user without connections: queue the message, or else go on and send to nobody.
unfoldable pub send_to_offline :
    World → Dispatcher → Str → NotificationEvent → Option Str → Dispatcher × DeliveryResult
unfolding enqueue_offline tenant_queue_key send_and_count
send_to_offline w d user_id event tenant_id =
    let (q, taken) =
      enqueue_offline w 0 d.queue_backend (tenant_queue_key tenant_id user_id) event in
    if taken
    then (
      record d {
        queue_backend = q;
        stats = count_user (record d.stats { total_sent = fetch_add d.stats.total_sent 1 });
      },
      delivery event.id 0 0,
    )
    else send_and_count w (record d { queue_backend = q }) count_user event []

unfoldable pub send_to_user_for_tenant :
    World → Dispatcher → Str → NotificationEvent → Option Str → Dispatcher × DeliveryResult
unfolding get_user_connections_filtered send_and_count send_to_offline
send_to_user_for_tenant w d user_id event tenant_id =
    let connections = get_user_connections_filtered d.connection_manager user_id tenant_id in
    if is_empty connections
    then send_to_offline w d user_id event tenant_id
    else send_and_count w d count_user event connections

-- The connections of the users in a batch, and the users who have none.
unfoldable pub collect :
    ConnectionManager → Option Str → List Str → List ConnectionHandle × List Str
unfolding get_user_connections_filtered
collect m tenant_id [] = ([], [])
collect m tenant_id (u ∷ us) =
    let (connections, offline) = collect m tenant_id us in
    let found = get_user_connections_filtered m u tenant_id in
    if is_empty found then (connections, u ∷ offline) else (found ++ connections, offline)

-- With the number of messages queued so far.
unfoldable pub queue_offline :
    World
    → ℕ
    → Option MemoryQueueBackend
    → Option Str
    → List Str
    → NotificationEvent
    → Option MemoryQueueBackend
unfolding enqueue_offline tenant_queue_key
queue_offline w n q tenant_id [] event = q
queue_offline w n q tenant_id (u ∷ us) event =
    queue_offline w (n + 1) (enqueue_offline w n q (tenant_queue_key tenant_id u) event).0 tenant_id
      us event

-- `user_ids.chunks(most)`, with fuel: as many rounds as there are users are enough.
unfoldable pub chunks : ℕ → ℕ → List Str → List (List Str)
chunks zero most xs = []
chunks (suc fuel) most [] = []
chunks (suc fuel) most (x ∷ xs) = take most (x ∷ xs) ∷ chunks fuel most (drop most (x ∷ xs))

-- The loop over the batches: the backends, and the numbers delivered and failed so far.
unfoldable pub batch_loop :
    World
    → ConnectionManager
    → Option Str
    → NotificationEvent
    → List (List Str)
    → Option MemoryQueueBackend
    → Option MemoryAckBackend
    → ℕ
    → ℕ
    → ℕ
    → Option MemoryQueueBackend × Option MemoryAckBackend × ℕ × ℕ
unfolding collect queue_offline send_to_connections
batch_loop w m tenant_id event [] q ack n delivered failed = (q, ack, delivered, failed)
batch_loop w m tenant_id event (batch ∷ batches) q ack n delivered failed =
    let (connections, offline) = collect m tenant_id batch in
    let q' = queue_offline w n q tenant_id offline event in
    let (ack', more, lost) = send_to_connections w event.id connections ack in
    batch_loop w m tenant_id event batches q' ack' (n + length offline) (delivered + more)
      (failed + lost)

unfoldable pub send_to_users_for_tenant :
    World → Dispatcher → List Str → NotificationEvent → Option Str → Dispatcher × DeliveryResult
unfolding chunks batch_loop
send_to_users_for_tenant w d user_ids event tenant_id =
    let (q, ack, delivered, failed) =
      batch_loop w d.connection_manager tenant_id event (chunks (length user_ids) 100 user_ids)
        d.queue_backend d.ack_backend 0 0 0 in
    (
      record d {
        queue_backend = q;
        ack_backend = ack;
        stats = count_user (sent_stats delivered failed d.stats);
      },
      delivery event.id delivered failed,
    )

unfoldable pub broadcast_connections : ConnectionManager → Option Str → List ConnectionHandle
unfolding get_tenant_connections get_all_connections
broadcast_connections m none = get_all_connections m
broadcast_connections m (some t) = get_tenant_connections m t

unfoldable pub broadcast_for_tenant :
    World → Dispatcher → NotificationEvent → Option Str → Dispatcher × DeliveryResult
unfolding broadcast_connections send_and_count
broadcast_for_tenant w d event tenant_id =
    send_and_count w d count_broadcast event (broadcast_connections d.connection_manager tenant_id)

unfoldable pub send_to_channel :
    World → Dispatcher → Str → NotificationEvent → Dispatcher × DeliveryResult
unfolding get_channel_connections send_and_count
send_to_channel w d ch event =
    send_and_count w d count_channel event (get_channel_connections d.connection_manager ch)

-- The inner loop of `send_to_channels`: the connections not seen yet, and all those seen.
unfoldable pub add_unseen :
    List ConnectionHandle → List ℕ × List ConnectionHandle → List ℕ × List ConnectionHandle
unfolding contains
add_unseen [] acc = acc
add_unseen (h ∷ hs) (seen, all) = elim (contains h.id seen) [
  | true ↦ add_unseen hs (seen, all)
  | false ↦ add_unseen hs (seen ++ h.id ∷ [], all ++ h ∷ [])
]

unfoldable pub channels_loop :
    ConnectionManager → List Str → List ℕ × List ConnectionHandle → List ℕ × List ConnectionHandle
unfolding add_unseen get_channel_connections
channels_loop m [] acc = acc
channels_loop m (ch ∷ chs) acc = channels_loop m chs (add_unseen (get_channel_connections m ch) acc)

unfoldable pub send_to_channels :
    World → Dispatcher → List Str → NotificationEvent → Dispatcher × DeliveryResult
unfolding channels_loop send_and_count
send_to_channels w d chs event =
    send_and_count w d count_channel event (channels_loop d.connection_manager chs ([], [])).1

abbrev pub handle :
    World
    → Dispatcher
    → NotificationTarget
    → NotificationEvent
    → Option Str
    → Dispatcher × DeliveryResult
handle w d (user u) event tenant_id = send_to_user_for_tenant w d u event tenant_id
handle w d (user_list us) event tenant_id = send_to_users_for_tenant w d us event tenant_id
handle w d broadcast event tenant_id = broadcast_for_tenant w d event tenant_id
handle w d (channel ch) event tenant_id = send_to_channel w d ch event
handle w d (channel_list chs) event tenant_id = send_to_channels w d chs event

unfoldable pub dispatch_for_tenant :
    World
    → Dispatcher
    → NotificationTarget
    → NotificationEvent
    → Option Str
    → Dispatcher × DeliveryResult
unfolding is_expired
dispatch_for_tenant w d target event tenant_id =
    if is_expired w.chrono w.now event
    then (d, delivery event.id 0 0)
    else handle w d target event tenant_id

unfoldable pub dispatch :
    World → Dispatcher → NotificationTarget → NotificationEvent → Dispatcher × DeliveryResult
unfolding dispatch_for_tenant
dispatch w d target event = dispatch_for_tenant w d target event none
