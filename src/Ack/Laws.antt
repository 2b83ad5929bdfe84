-- ===== src/Ack/Laws.antt =====
-- What the calls of the acknowledgment backend do, on every branch.
use ara_notification_service.Common.{
  ℕ, ◌≡◌, refl, arith, Bool, true, false, ◌&&◌, if◌then◌else◌, Option, none, some, Str, nat_key,
  str_key, ◌==◌, get, remove, get-insert, get-remove, Chrono, fetch_add,
}
use ara_notification_service.Ack.Memory.{
  PendingAckInfo, new_pending, MemoryAckBackend, track, acknowledge, acknowledge_found,
  acknowledge_pending, latency_ms,
}

-- May this user acknowledge what is pending?
abbrev pub awaits : Option PendingAckInfo → Str → Bool
awaits none u = false
awaits (some p) u = p.user_id == u

abbrev pub latency_of : Chrono → ℕ → Option PendingAckInfo → ℕ
latency_of c now none = 0
latency_of c now (some p) = latency_ms c now p

abbrev pub AckOutcome :
    Chrono
    → ℕ
    → MemoryAckBackend
    → ℕ
    → Bool
    → Option PendingAckInfo
    → MemoryAckBackend × Bool
    → Type 0
AckOutcome c now b id valid found (b', answer) =
    (answer ≡ valid)
    × ((j : ℕ) → get j b'.pending ≡ (if valid && j == id then none else get j b.pending))
    × (b'.stats ≡ (
        if valid
        then record b.stats {
          total_acked = fetch_add b.stats.total_acked 1;
          total_latency_ms = fetch_add b.stats.total_latency_ms (latency_of c now found);
        }
        else b.stats))
    × (b'.config ≡ b.config)

acknowledge_outcome :
    (c : Chrono) (now : ℕ) (b : MemoryAckBackend) (id : ℕ) (u : Str) (enabled : Bool)
    (o : Option PendingAckInfo)
    → get id b.pending ≡ o
    → AckOutcome c now b id
        (enabled && awaits o u)
        o
        (if enabled then acknowledge_found c now b id u o else (b, false))
unfolding acknowledge_found acknowledge_pending
acknowledge_outcome c now b id u false o h = (refl, λ j. refl, refl, refl)
acknowledge_outcome c now b id u true none h = (refl, λ j. refl, refl, refl)
acknowledge_outcome c now b id u true (some p) h = (
  ground arith,
  λ j. ground (arith, get-remove j id b.pending, get-insert j id p (remove id b.pending)),
  ground arith,
  ground arith,
)

-- An acknowledgment is accepted exactly if tracking is on and the notification is pending for that
-- very user. An accepted one is no longer pending and is counted once with its latency; a refused one
-- changes neither what is pending nor the counters.
pub acknowledge_lem :
    (c : Chrono) (now : ℕ) (b : MemoryAckBackend) (id : ℕ) (u : Str)
    → AckOutcome c now b id
        (b.config.enabled && awaits (get id b.pending) u)
        (get id b.pending)
        (acknowledge c now b id u)
unfolding acknowledge
acknowledge_lem c now b id u =
    acknowledge_outcome c now b id u b.config.enabled (get id b.pending) refl

-- A notification is not acknowledged twice in a row, whichever users ask.
pub acknowledge-once :
    (c : Chrono) (now later : ℕ) (b : MemoryAckBackend) (id : ℕ) (u v : Str)
    → let (b', answer) = acknowledge c now b id u in
      (answer && (acknowledge c later b' id v).1) ≡ false
acknowledge-once c now later b id u v =
    let b' = (acknowledge c now b id u).0 in
    ground (
      arith,
      (acknowledge_lem c now b id u).0,
      (acknowledge_lem c now b id u).1 id,
      (acknowledge_lem c later b' id v).0,
    )

get-track :
    (now : ℕ) (b : MemoryAckBackend) (id : ℕ) (u : Str) (k : ℕ) (j : ℕ)
    → get j (track now b id u k).pending
      ≡ (if b.config.enabled && j == id then some (new_pending now id u k) else get j b.pending)
unfolding track
get-track now b id u k j = ground (arith, get-insert j id (new_pending now id u k) b.pending)

config-track :
    (now : ℕ) (b : MemoryAckBackend) (id : ℕ) (u : Str) (k : ℕ)
    → (track now b id u k).config ≡ b.config
unfolding track
config-track now b id u k = ground arith

-- Of the users for whom one notification is tracked in turn, only the last can acknowledge it: the
-- later entry takes the place of the earlier one.
pub acknowledge-track-track :
    (c : Chrono) (s t now : ℕ) (b : MemoryAckBackend) (id j k : ℕ) (u v w : Str)
    → (acknowledge c now (track t (track s b id u j) id v k) id w).1 ≡ (b.config.enabled && v == w)
acknowledge-track-track c s t now b id j k u v w =
    let b' = track s b id u j in
    ground (
      arith,
      (acknowledge_lem c now (track t b' id v k) id w).0,
      get-track t b' id v k id,
      config-track t b' id v k,
      config-track s b id u j,
    )
