-- ===== src/Queue/Replay.antt =====
-- What `UserMessageQueue::replay` sends, and what it loses.
use mathlib.Core.List.{append-nil, append_assoc}
use ara_notification_service.Common.{
  ℕ, ◌+◌, ◌≤◌, ◌≡◌, refl, arith, Bool, true, false, ◌&&◌, if◌then◌else◌, Option, none, some, List,
  [], ◌∷◌, ◌++◌, length, retain, Str, str_key, ◌==◌, get, members, get-remove, Chrono,
}
use ara_notification_service.Queue.Draining.{live}
use ara_notification_service.Queue.Models.{QueuedMessage, ReplayResult, empty_replay}
use ara_notification_service.Queue.UserQueue.{
  UserMessageQueue, expired_at, replay_loop, replay_found, replay,
}

-- The messages before the first that the connection does not take.
abbrev pub sendable : (QueuedMessage → Bool) → List QueuedMessage → List QueuedMessage
sendable sends [] = []
sendable sends (x ∷ xs) = if sends x then x ∷ sendable sends xs else []

abbrev pub takes_all : (QueuedMessage → Bool) → List QueuedMessage → Bool
takes_all sends [] = true
takes_all sends (x ∷ xs) = sends x && takes_all sends xs

module _ (expired sends : QueuedMessage → Bool) where
  replay_loop-sent :
      (xs : List QueuedMessage) (r : ReplayResult) (sent : List QueuedMessage)
      → (replay_loop expired sends xs r sent).1 ≡ sent ++ sendable sends (live expired xs)
  unfolding replay_loop retain
  replay_loop-sent [] r sent = ground (arith, append-nil sent)
  replay_loop-sent (x ∷ xs) r sent = ground (
    arith,
    replay_loop-sent xs (record r { expired = r.expired + 1 }) sent,
    replay_loop-sent xs (record r { replayed = r.replayed + 1 }) (sent ++ x ∷ []),
    append_assoc sent (x ∷ []) (sendable sends (live expired xs)),
    append-nil sent,
  )

  replay_loop-counts :
      (xs : List QueuedMessage) (r : ReplayResult) (sent : List QueuedMessage)
      → let (r', sent') = replay_loop expired sends xs r sent in
        (r'.replayed ≡ r.replayed + length (sendable sends (live expired xs)))
        × (r'.failed ≡ r.failed + (if takes_all sends (live expired xs) then 0 else 1))
        × (r'.replayed + r'.failed + r'.expired ≤ r.replayed + r.failed + r.expired + length xs)
  unfolding replay_loop retain
  replay_loop-counts [] r sent = (omega arith, omega arith, omega arith)
  replay_loop-counts (x ∷ xs) r sent = ground (
    arith,
    replay_loop-counts xs (record r { expired = r.expired + 1 }) sent,
    replay_loop-counts xs (record r { replayed = r.replayed + 1 }) (sent ++ x ∷ []),
  )

-- The outcome for a switch and the messages of the user.
abbrev pub ReplayOutcome :
    Chrono
    → (QueuedMessage → ℕ)
    → (QueuedMessage → Bool)
    → UserMessageQueue
    → Str
    → Bool
    → List QueuedMessage
    → UserMessageQueue × ReplayResult × List QueuedMessage
    → Type 0
ReplayOutcome c now sends b u enabled messages (b', r, sent) =
    let q = if enabled then messages else [] in
    (sent ≡ sendable sends (live (expired_at c now b) q))
    × (r.replayed ≡ length sent)
    × (r.failed ≡ (if takes_all sends (live (expired_at c now b) q) then 0 else 1))
    × (r.replayed + r.failed + r.expired ≤ length q)
    × ((j : Str) → get j b'.queues ≡ (if enabled && j == u then none else get j b.queues))

replay_outcome :
    (c : Chrono) (now : QueuedMessage → ℕ) (sends : QueuedMessage → Bool) (b : UserMessageQueue)
    (u : Str) (enabled : Bool) (o : Option (List QueuedMessage))
    → get u b.queues ≡ o
    → ReplayOutcome c now sends b u enabled
        (elim o [ none ↦ [] | some q ↦ q ])
        (if enabled then replay_found c now sends b u o else (b, empty_replay, []))
unfolding replay_found retain
replay_outcome c now sends b u false o h = (refl, refl, refl, omega arith, λ j. refl)
replay_outcome c now sends b u true none h = (refl, refl, refl, omega arith, λ j. ground arith)
replay_outcome c now sends b u true (some q) h =
    let e = expired_at c now b in
    let (replayed, failed, all) = replay_loop-counts e sends q empty_replay [] in
    let sent = replay_loop-sent e sends q empty_replay [] in
    (
      sent,
      ground (arith, replayed, sent),
      ground (arith, failed),
      ground (arith, all),
      λ j. get-remove j u b.queues,
    )

-- `replay` sends the user's messages that are not expired, oldest first, up to the first that the
-- connection does not take; it counts one failure if there is such a message and none otherwise, and
-- no message is counted twice. The user's queue is gone afterwards, with what came after the failure,
-- and every other queue stays. A disabled queue sends nothing and keeps all.
pub replay_lem :
    (c : Chrono) (now : QueuedMessage → ℕ) (sends : QueuedMessage → Bool) (b : UserMessageQueue)
    (u : Str)
    → ReplayOutcome c now sends b u b.config.enabled (members u b.queues) (replay c now sends b u)
unfolding replay
replay_lem c now sends b u = replay_outcome c now sends b u b.config.enabled (get u b.queues) refl
