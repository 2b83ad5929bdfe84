-- ===== src/Heartbeat/Laws.antt =====
-- What the heartbeat task of src/tasks/heartbeat.rs sends and sweeps.
use ara_notification_service.Common.{
  ℕ, zero, suc, ◌+◌, ◌≤◌, ◌≡◌, refl, ◌∙◌, ap, arith, Bool, true, false, not, if◌then◌else◌, Option,
  none, some, List, [], ◌∷◌, length, is_empty, count, take, drop, nat_key, get, Chrono,
}
use ara_notification_service.Connection.Types.{ConnectionHandle, ConnectionManager}
use ara_notification_service.Connection.Queries.{get_all_connections, cleanup_stale_connections}
use ara_notification_service.Connection.Valid.{IsValid}
use ara_notification_service.Connection.Stale.{stale_at, cleanup_stale_connections_lem}
use ara_notification_service.Heartbeat.Task.{
  connection_chunks, heartbeat_batch, heartbeat_batches, send_heartbeats, Tick, shutdown, heartbeat,
  cleanup, changed, Round, refresh_cluster_sessions, run,
}

heartbeat_batch_lem :
    (takes : ConnectionHandle → Bool) (hs : List ConnectionHandle) (sent failed : ℕ)
    → heartbeat_batch takes hs sent failed
      ≡ (sent + count takes hs, failed + count (λ h. not (takes h)) hs)
unfolding heartbeat_batch
heartbeat_batch_lem takes [] sent failed = ground arith
heartbeat_batch_lem takes (h ∷ hs) sent failed = ground (
  arith,
  heartbeat_batch_lem takes hs (sent + 1) failed,
  heartbeat_batch_lem takes hs sent (failed + 1),
)

-- The connections of all batches that satisfy a test.
abbrev pub chunks_count : (ConnectionHandle → Bool) → List (List ConnectionHandle) → ℕ
chunks_count p [] = 0
chunks_count p (b ∷ bs) = count p b + chunks_count p bs

heartbeat_batches_lem :
    (takes : ConnectionHandle → Bool) (bs : List (List ConnectionHandle)) (sent failed : ℕ)
    → heartbeat_batches takes bs sent failed
      ≡ (sent + chunks_count takes bs, failed + chunks_count (λ h. not (takes h)) bs)
unfolding heartbeat_batches
heartbeat_batches_lem takes [] sent failed = ground arith
heartbeat_batches_lem takes (b ∷ bs) sent failed = ground (
  arith,
  heartbeat_batch_lem takes b sent failed,
  heartbeat_batches_lem takes bs (sent + count takes b) (failed + count (λ h. not (takes h)) b),
)

count-take-drop :
    (p : ConnectionHandle → Bool) (n : ℕ) (hs : List ConnectionHandle)
    → count p (take n hs) + count p (drop n hs) ≡ count p hs
count-take-drop p zero hs = omega arith
count-take-drop p (suc n) [] = omega arith
count-take-drop p (suc n) (h ∷ hs) = omega (arith, count-take-drop p n hs)

length-drop-le : (n : ℕ) (hs : List ConnectionHandle) → length (drop n hs) ≤ length hs
length-drop-le zero hs = omega arith
length-drop-le (suc n) [] = omega arith
length-drop-le (suc n) (h ∷ hs) = omega (arith, length-drop-le n hs)

-- With as much fuel as there are connections, none is left out and none comes twice.
chunks_count-connection_chunks :
    (p : ConnectionHandle → Bool) (fuel : ℕ) (hs : List ConnectionHandle)
    → length hs ≤ fuel
    → chunks_count p (connection_chunks fuel hs) ≡ count p hs
unfolding connection_chunks
chunks_count-connection_chunks p zero [] le = refl
chunks_count-connection_chunks p zero (h ∷ hs) le = absurd (omega arith)
chunks_count-connection_chunks p (suc fuel) [] le = refl
chunks_count-connection_chunks p (suc fuel) (h ∷ hs) le = omega (
  arith,
  count-take-drop p 1000 (h ∷ hs),
  chunks_count-connection_chunks p fuel (drop 1000 (h ∷ hs)) (omega (arith, length-drop-le 999 hs)),
)

-- The connections that take a heartbeat and those that do not, each counted once.
abbrev pub sends_of : (ConnectionHandle → Bool) → ConnectionManager → Option (ℕ × ℕ)
sends_of takes m =
    let hs = get_all_connections m in
    if is_empty hs then none else some (count takes hs, count (λ h. not (takes h)) hs)

-- The batches of 1000 together are the whole registry.
send_heartbeats_lem :
    (takes : ConnectionHandle → Bool) (m : ConnectionManager)
    → send_heartbeats takes m ≡ sends_of takes m
unfolding send_heartbeats
send_heartbeats_lem takes m = ground (
  arith,
  heartbeat_batches_lem takes (connection_chunks (length hs) hs) 0 0,
  chunks_count-connection_chunks takes (length hs) hs (omega arith),
  chunks_count-connection_chunks (λ h. not (takes h)) (length hs) hs (omega arith),
)
  where
    hs : List ConnectionHandle
    hs = get_all_connections m

-- The connection under one identifier through the life of the task: only a sweep at which it is stale
-- ends it, and what other tasks do is taken over, until the shutdown.
abbrev pub fate : Chrono → ℕ → ℕ → Option ConnectionHandle → List Tick → Option ConnectionHandle
fate c timeout i o [] = o
fate c timeout i o (shutdown ∷ ticks) = o
fate c timeout i o (heartbeat takes store ∷ ticks) = fate c timeout i o ticks
fate c timeout i o (cleanup now ∷ ticks) =
    fate c timeout i (if stale_at c now timeout o then none else o) ticks
fate c timeout i o (changed n ∷ ticks) = fate c timeout i (get i n.connections) ticks

-- The other tasks leave a valid registry.
abbrev pub LeavesValid : List Tick → Type 0
LeavesValid [] = Unit
LeavesValid (shutdown ∷ ticks) = LeavesValid ticks
LeavesValid (heartbeat takes store ∷ ticks) = LeavesValid ticks
LeavesValid (cleanup now ∷ ticks) = LeavesValid ticks
LeavesValid (changed n ∷ ticks) = IsValid n × LeavesValid ticks

-- The rounds of heartbeats before the shutdown, each over the registry of its time.
abbrev pub rounds_of : Chrono → ℕ → ConnectionManager → List Tick → List Round
rounds_of c timeout m [] = []
rounds_of c timeout m (shutdown ∷ ticks) = []
rounds_of c timeout m (heartbeat takes store ∷ ticks) =
    record {
      sends = sends_of takes m;
      refreshed = if store.is_enabled then some store.refresh_sessions else none;
    }
    ∷ rounds_of c timeout m ticks
rounds_of c timeout m (cleanup now ∷ ticks) =
    rounds_of c timeout (cleanup_stale_connections c now m timeout).0 ticks
rounds_of c timeout m (changed n ∷ ticks) = rounds_of c timeout n ticks

abbrev pub has_shutdown : List Tick → Bool
has_shutdown [] = false
has_shutdown (shutdown ∷ ticks) = true
has_shutdown (heartbeat takes store ∷ ticks) = has_shutdown ticks
has_shutdown (cleanup now ∷ ticks) = has_shutdown ticks
has_shutdown (changed n ∷ ticks) = has_shutdown ticks

-- Through any ticks the registry stays valid, provided that it is valid at the start and that other
-- tasks leave it so; each connection is ended by a sweep at which it is stale and by nothing else
-- the task does. Up to the shutdown each round of heartbeats, sent in batches of 1000, counts every
-- connection of the registry once, as sent where the connection takes the message and as failed
-- elsewhere, and refreshes the sessions of an enabled store. The task stops exactly if it meets the
-- shutdown.
pub run_lem :
    (c : Chrono) (timeout : ℕ) (m : ConnectionManager) (ticks : List Tick)
    → IsValid m
    → LeavesValid ticks
    → let (last, rounds, stopped) = run c timeout m ticks in
      ((i : ℕ) → get i last.connections ≡ fate c timeout i (get i m.connections) ticks)
      × IsValid last
      × (rounds ≡ rounds_of c timeout m ticks)
      × (stopped ≡ has_shutdown ticks)
unfolding run refresh_cluster_sessions
run_lem c timeout m [] v l = ((λ i. refl), v, refl, refl)
run_lem c timeout m (shutdown ∷ ticks) v l = ((λ i. refl), v, refl, refl)
run_lem c timeout m (heartbeat takes store ∷ ticks) v l =
    let (fates, valid, rounds, stops) = run_lem c timeout m ticks v l in
    (fates, valid, cc (rounds, send_heartbeats_lem takes m), stops)
run_lem c timeout m (cleanup now ∷ ticks) v l =
    let (found, n, valid) = cleanup_stale_connections_lem c now timeout m v in
    let (fates, last_valid, rounds, stops) =
      run_lem c timeout (cleanup_stale_connections c now m timeout).0 ticks valid l in
    ((λ i. fates i ∙ ap (λ o. fate c timeout i o ticks) (found i)), last_valid, rounds, stops)
run_lem c timeout m (changed n ∷ ticks) v l = run_lem c timeout n ticks l.0 l.1
