-- ===== src/Ack/Runs.antt =====
-- The acknowledgment backend through any sequence of calls.
use ara_notification_service.Common.{
  ℕ, ◌+◌, ◌%◌, ◌^◌, ◌≡◌, refl, arith, Bool, true, false, not, ◌&&◌, if◌then◌else◌, Option, none,
  some, is_some, List, [], ◌∷◌, length, contains, retain, length-retain, count-not, IsUnique,
  HashMap, Str, nat_key, str_key, get, remove, keys, get-remove, length-insert, length-remove,
  keys-insert-IsUnique, keys-remove-IsUnique, contains-keys, Chrono,
}
use ara_notification_service.Ack.Memory.{
  AckConfig, PendingAckInfo, new_pending, MemoryAckBackend, new, track, acknowledge,
  acknowledge_found, acknowledge_pending, outdated, cleanup_expired,
}

-- The retained entries of a map with unique keys.
module _ {V : Type 0} (p : ℕ × V → Bool) where
  contains-keys-retain :
      (k : ℕ) (m : HashMap ℕ V)
      → contains k (keys m) ≡ false
      → contains k (keys (retain p m)) ≡ false
  unfolding contains retain
  contains-keys-retain k [] h = refl
  contains-keys-retain k ((j, v) ∷ m) h = ground (arith, contains-keys-retain k m)

  keys-retain-IsUnique : (m : HashMap ℕ V) → IsUnique (keys m) → IsUnique (keys (retain p m))
  unfolding retain
  keys-retain-IsUnique [] u = tt
  keys-retain-IsUnique ((j, v) ∷ m) u =
      ground (arith, keys-retain-IsUnique m, contains-keys-retain j m)

  -- What the map holds for a key when only the entries that pass stay.
  abbrev pub sifted : ℕ → Option V → Option V
  sifted k none = none
  sifted k (some v) = if p (k, v) then some v else none

  get-retain :
      (k : ℕ) (m : HashMap ℕ V) → IsUnique (keys m) → get k (retain p m) ≡ sifted k (get k m)
  unfolding get retain
  get-retain k [] u = refl
  get-retain k ((j, v) ∷ m) u = ground (
    arith,
    get-retain k m,
    contains-keys k m,
    contains-keys k (retain p m),
    contains-keys-retain k m,
  )

-- The calls that change the backend.
pub data Call : Type 0 where
  tracks : ℕ → ℕ → Str → ℕ → Call
  acknowledges : ℕ → ℕ → Str → Call
  sweeps : (PendingAckInfo → ℕ) → Call

unfoldable pub step : Chrono → MemoryAckBackend → Call → MemoryAckBackend
step c b (tracks now id u k) = track now b id u k
step c b (acknowledges now id u) = (acknowledge c now b id u).0
step c b (sweeps now) = (cleanup_expired c now b).0

-- Does the call track a notification that is pending already, so that the earlier entry is lost?
abbrev pub overwrites : MemoryAckBackend → Call → ℕ
overwrites b (tracks now id u k) = if b.config.enabled && is_some (get id b.pending) then 1 else 0
overwrites b (acknowledges now id u) = 0
overwrites b (sweeps now) = 0

abbrev pub run : Chrono → MemoryAckBackend → List Call → MemoryAckBackend
run c b [] = b
run c b (x ∷ xs) = run c (step c b x) xs

abbrev pub overwritten : Chrono → MemoryAckBackend → List Call → ℕ
overwritten c b [] = 0
overwritten c b (x ∷ xs) = overwrites b x + overwritten c (step c b x) xs

acknowledge-IsUnique :
    (c : Chrono) (now : ℕ) (b : MemoryAckBackend) (id : ℕ) (u : Str) (enabled : Bool)
    (o : Option PendingAckInfo)
    → IsUnique (keys b.pending)
    → let (b', answer) = if enabled then acknowledge_found c now b id u o else (b, false) in
      IsUnique (keys b'.pending)
unfolding acknowledge_found acknowledge_pending
acknowledge-IsUnique c now b id u false o v = v
acknowledge-IsUnique c now b id u true none v = v
acknowledge-IsUnique c now b id u true (some p) v =
    ground
      (arith, keys-remove-IsUnique id b.pending v, keys-insert-IsUnique id p (remove id b.pending))

step-IsUnique :
    (c : Chrono) (b : MemoryAckBackend) (x : Call)
    → IsUnique (keys b.pending)
    → IsUnique (keys (step c b x).pending)
unfolding step track acknowledge cleanup_expired
step-IsUnique c b (tracks now id u k) v =
    ground (arith, keys-insert-IsUnique id (new_pending now id u k) b.pending v)
step-IsUnique c b (acknowledges now id u) v =
    acknowledge-IsUnique c now b id u b.config.enabled (get id b.pending) v
step-IsUnique c b (sweeps now) v =
    ground (arith, keys-retain-IsUnique (λ e. not (outdated c now b e)) b.pending v)

-- What is tracked is accounted for, up to the wrap-around of the 64-bit counters.
abbrev pub Balances : MemoryAckBackend → ℕ → Type 0
Balances b n =
    b.stats.total_tracked % 2 ^ 64
    ≡ (b.stats.total_acked + b.stats.total_expired + length b.pending + n) % 2 ^ 64

acknowledge-balance :
    (c : Chrono) (now : ℕ) (b : MemoryAckBackend) (id : ℕ) (u : Str) (enabled : Bool)
    (o : Option PendingAckInfo) (n : ℕ)
    → get id b.pending ≡ o
    → IsUnique (keys b.pending)
    → Balances b n
    → let (b', answer) = if enabled then acknowledge_found c now b id u o else (b, false) in
      Balances b' n
unfolding acknowledge_found acknowledge_pending
acknowledge-balance c now b id u false o n h v e = e
acknowledge-balance c now b id u true none n h v e = e
acknowledge-balance c now b id u true (some p) n h v e = ground (
  arith,
  length-remove id b.pending v,
  length-insert id p (remove id b.pending),
  get-remove id id b.pending,
  e,
)

step-balance :
    (c : Chrono) (b : MemoryAckBackend) (x : Call) (n : ℕ)
    → IsUnique (keys b.pending)
    → Balances b n
    → Balances (step c b x) (overwrites b x + n)
unfolding step track acknowledge cleanup_expired
step-balance c b (tracks now id u k) n v e =
    ground (arith, length-insert id (new_pending now id u k) b.pending, e)
step-balance c b (acknowledges now id u) n v e =
    ground (arith, acknowledge-balance c now b id u b.config.enabled (get id b.pending) n refl v e)
step-balance c b (sweeps now) n v e = ground (
  arith,
  count-not (outdated c now b) b.pending,
  length-retain (λ e. not (outdated c now b e)) b.pending,
  e,
)

-- After any calls on a new backend, whatever the answers, every notification is pending at most once,
-- and the number tracked is the number acknowledged, expired, still pending, and lost because the same
-- notification was tracked again while it was pending (as 64-bit counters, which wrap).
pub run-balance :
    (c : Chrono) (config : AckConfig) (xs : List Call)
    → Balances (run c (new config) xs) (overwritten c (new config) xs)
      × IsUnique (keys (run c (new config) xs).pending)
unfolding new
run-balance c config xs = let (e, v) = go (new config) xs 0 tt refl in (omega (arith, e), v)
  where
    go :
        (b : MemoryAckBackend) (xs : List Call) (n : ℕ)
        → IsUnique (keys b.pending)
        → Balances b n
        → Balances (run c b xs) (overwritten c b xs + n) × IsUnique (keys (run c b xs).pending)
    go b [] n v e = (omega (arith, e), v)
    go b (x ∷ xs) n v e =
        let (e', v') =
          go (step c b x) xs (overwrites b x + n) (step-IsUnique c b x v)
            (step-balance c b x n v e) in
        (omega (arith, e'), v')

-- With tracking on, `cleanup_expired` keeps exactly the notifications that are not past the timeout
-- and answers how many it removed; with tracking off it removes nothing.
pub pending-cleanup_expired :
    (c : Chrono) (now : PendingAckInfo → ℕ) (b : MemoryAckBackend)
    → IsUnique (keys b.pending)
    → let (b', removed) = cleanup_expired c now b in
      ((id : ℕ)
        → get id b'.pending ≡ (
            if b.config.enabled
            then sifted (λ e. not (outdated c now b e)) id (get id b.pending)
            else get id b.pending))
      × (removed + length b'.pending ≡ length b.pending)
unfolding cleanup_expired
pending-cleanup_expired c now b u = (
  λ id. ground (arith, get-retain (λ e. not (outdated c now b e)) id b.pending u),
  ground (
    arith,
    count-not (outdated c now b) b.pending,
    length-retain (λ e. not (outdated c now b e)) b.pending,
  ),
)
