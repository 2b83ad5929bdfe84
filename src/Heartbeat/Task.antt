-- ===== src/Heartbeat/Task.antt =====
-- `HeartbeatTask` of src/tasks/heartbeat.rs over the registry of connections: the heartbeats in batches,
-- the refreshing of the sessions, the sweeps, and the loop. Logging and metrics are left out.
use ara_notification_service.Common.{
  ℕ, zero, suc, ◌+◌, Bool, true, false, if◌then◌else◌, Option, none, some, List, [], ◌∷◌, length,
  is_empty, take, drop, Result, Chrono,
}
use ara_notification_service.Connection.Types.{ConnectionHandle, ConnectionManager}
use ara_notification_service.Connection.Queries.{get_all_connections, cleanup_stale_connections}
use ara_notification_service.Cluster.Types.{SessionStore, SessionStoreError}

abbrev pub max_concurrent_heartbeats : ℕ
max_concurrent_heartbeats = 1000

-- `connections.chunks(MAX_CONCURRENT_HEARTBEATS)`, with fuel: as many rounds as there are connections
-- are enough.
unfoldable pub connection_chunks : ℕ → List ConnectionHandle → List (List ConnectionHandle)
connection_chunks zero hs = []
connection_chunks (suc fuel) [] = []
connection_chunks (suc fuel) (h ∷ hs) =
    take max_concurrent_heartbeats (h ∷ hs)
    ∷ connection_chunks fuel (drop max_concurrent_heartbeats (h ∷ hs))

-- One batch, whose sends are counted in whatever order they end: `takes` tells which connections take
-- the message within the time limit of a send.
unfoldable pub heartbeat_batch : (ConnectionHandle → Bool) → List ConnectionHandle → ℕ → ℕ → ℕ × ℕ
heartbeat_batch takes [] sent failed = (sent, failed)
heartbeat_batch takes (h ∷ hs) sent failed = elim (takes h) [
  | true ↦ heartbeat_batch takes hs (sent + 1) failed
  | false ↦ heartbeat_batch takes hs sent (failed + 1)
]

unfoldable pub heartbeat_batches :
    (ConnectionHandle → Bool) → List (List ConnectionHandle) → ℕ → ℕ → ℕ × ℕ
unfolding heartbeat_batch
heartbeat_batches takes [] sent failed = (sent, failed)
heartbeat_batches takes (b ∷ bs) sent failed =
    let (sent_now, failed_now) = heartbeat_batch takes b sent failed in
    heartbeat_batches takes bs sent_now failed_now

-- The numbers sent and failed, none where no connection is open.
unfoldable pub send_heartbeats : (ConnectionHandle → Bool) → ConnectionManager → Option (ℕ × ℕ)
unfolding connection_chunks heartbeat_batches get_all_connections
send_heartbeats takes m =
    let connections = get_all_connections m in
    if is_empty connections
    then none
    else some (heartbeat_batches takes (connection_chunks (length connections) connections) 0 0)

-- What the store answered, none where it is disabled and not asked.
unfoldable pub refresh_cluster_sessions : SessionStore → Option (Result ℕ SessionStoreError)
refresh_cluster_sessions store = if store.is_enabled then some store.refresh_sessions else none

-- What the loop meets, in the order in which it comes: the shutdown, a tick of each timer with what it
-- meets, and the registry as other tasks have left it in between.
pub data Tick : Type 0 where
  shutdown : Tick
  heartbeat : (ConnectionHandle → Bool) → SessionStore → Tick
  cleanup : ℕ → Tick
  changed : ConnectionManager → Tick

pub record Round : Type 0 where
  pub sends : Option (ℕ × ℕ)
  pub refreshed : Option (Result ℕ SessionStoreError)

-- The registry at the end, the rounds of heartbeats, and whether the task has stopped.
unfoldable pub run :
    Chrono → ℕ → ConnectionManager → List Tick → ConnectionManager × List Round × Bool
unfolding send_heartbeats refresh_cluster_sessions cleanup_stale_connections
run c timeout m [] = (m, [], false)
run c timeout m (shutdown ∷ ticks) = (m, [], true)
run c timeout m (heartbeat takes store ∷ ticks) =
    let (last, rounds, stopped) = run c timeout m ticks in
    (
      last,
      record { sends = send_heartbeats takes m; refreshed = refresh_cluster_sessions store }
          ∷ rounds,
      stopped,
    )
run c timeout m (cleanup now ∷ ticks) =
    run c timeout (cleanup_stale_connections c now m timeout).0 ticks
run c timeout m (changed n ∷ ticks) = run c timeout n ticks
