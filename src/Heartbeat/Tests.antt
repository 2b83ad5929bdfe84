-- ===== src/Heartbeat/Tests.antt =====
-- Runs of the heartbeat task, and its theorem at a concrete input.
use ara_notification_service.Common.{
  ◌≡◌, refl, Bool, true, ◌==◌, some, [], ◌∷◌, nat_key, get, ok, insert, index_push, index_insert,
  Str-discrete, ℕ_discrete, remove, retain, contains, index_remove,
}
use ara_notification_service.Fixtures.{clock, alice, bob, acme}
use ara_notification_service.Connection.Types.{
  ConnectionHandle, ConnectionManager, default_limits, new_handle,
}
use ara_notification_service.Connection.Manager.{with_limits, register, unregister}
use ara_notification_service.Connection.Calls.{registers, step, Reachable, start, next}
use ara_notification_service.Connection.Reachable.{Reachable-IsValid}
use ara_notification_service.Connection.Queries.{
  get_all_connections, cleanup_stale_connections, is_stale,
}
use ara_notification_service.Cluster.Types.{SessionStore, local_store}
use ara_notification_service.Heartbeat.Task.{
  shutdown, heartbeat, cleanup, changed, send_heartbeats, heartbeat_batch, heartbeat_batches,
  connection_chunks, refresh_cluster_sessions, run,
}
use ara_notification_service.Heartbeat.Laws.{run_lem}

-- Alice and Bob have a connection each; only connection 7 takes messages.
abbrev one : ConnectionManager
one = (register clock 100 7 (with_limits default_limits) alice acme [] 0).0

abbrev two : ConnectionManager
two = (register clock 190 8 one bob acme [] 0).0

abbrev takes : ConnectionHandle → Bool
takes h = h.id == 7

abbrev store : SessionStore
store = record (local_store bob) { is_enabled = true; refresh_sessions = ok 2 }

one-Reachable : Reachable clock default_limits one
unfolding step with_limits get
one-Reachable = next (registers 100 7 alice acme [] 0) refl start

program : Unit {0}
unfolding step register with_limits new_handle get insert remove retain contains index_push
    index_insert index_remove ℕ_discrete Str-discrete get_all_connections send_heartbeats
    heartbeat_batches heartbeat_batch connection_chunks cleanup_stale_connections unregister
    is_stale refresh_cluster_sessions run
program = tt

two-Reachable : Reachable clock default_limits two
unfolding program
two-Reachable = next (registers 190 8 bob acme [] 0) refl one-Reachable

sends_one_of_two : send_heartbeats takes two ≡ some (1, 1)
unfolding program
sends_one_of_two = refl

stops_at_shutdown :
    run clock 60 two (shutdown ∷ heartbeat takes store ∷ changed one ∷ []) ≡ (two, [], true)
unfolding program
stops_at_shutdown = refl

-- Connection 7 is stale at the sweep; after it only connection 8 gets heartbeats.
run_lem_example :
    (run clock 60 two (cleanup 200 ∷ heartbeat takes store ∷ shutdown ∷ [])).1
    ≡ record { sends = some (0, 1); refreshed = some (ok 2) } ∷ []
unfolding program
run_lem_example =
    (run_lem clock 60 two (cleanup 200 ∷ heartbeat takes store ∷ shutdown ∷ [])
      (Reachable-IsValid clock default_limits two-Reachable) tt).2
