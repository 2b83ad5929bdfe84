-- ===== src/Ack/Memory.antt =====
-- `MemoryAckBackend` of src/domain/ack/ack_memory_backend.rs, with the data of ack_backend.rs. The
-- counters are the atomic ones of the source; the metrics are left out.
use ara_notification_service.Common.{
  ℕ, ◌/◌, Bool, true, false, not, if◌then◌else◌, ltb, Option, none, some, [], length, count, retain,
  HashMap, Str, nat_key, str_key, ◌==◌, get, insert, remove, Chrono, as_i64, leb_ℤ, pos_part,
  fetch_add,
}

pub record AckConfig : Type 0 where
  pub enabled : Bool
  pub timeout_seconds : ℕ
  pub cleanup_interval_seconds : ℕ

abbrev pub default_config : AckConfig
default_config = record { enabled = false; timeout_seconds = 30; cleanup_interval_seconds = 60 }

pub record PendingAckInfo : Type 0 where
  pub notification_id : ℕ
  pub user_id : Str
  pub connection_id : ℕ
  pub sent_at : ℕ

abbrev pub new_pending : ℕ → ℕ → Str → ℕ → PendingAckInfo
new_pending now notification_id user_id connection_id = record {
  notification_id = notification_id;
  user_id = user_id;
  connection_id = connection_id;
  sent_at = now;
}

unfoldable pub is_expired : Chrono → ℕ → PendingAckInfo → ℕ → Bool
is_expired c now p timeout_seconds =
    leb_ℤ (as_i64 timeout_seconds) (c.num_seconds_since now p.sent_at)

-- `num_milliseconds().max(0) as u64`.
unfoldable pub latency_ms : Chrono → ℕ → PendingAckInfo → ℕ
latency_ms c now p = pos_part (c.num_milliseconds_since now p.sent_at)

pub record AckStats : Type 0 where
  pub total_tracked : ℕ
  pub total_acked : ℕ
  pub total_expired : ℕ
  pub total_latency_ms : ℕ

pub record MemoryAckBackend : Type 0 where
  pub config : AckConfig
  pub pending : HashMap ℕ PendingAckInfo
  pub stats : AckStats

unfoldable pub new : AckConfig → MemoryAckBackend
new config = record {
  config = config;
  pending = [];
  stats = record { total_tracked = 0; total_acked = 0; total_expired = 0; total_latency_ms = 0 };
}

unfoldable pub track : ℕ → MemoryAckBackend → ℕ → Str → ℕ → MemoryAckBackend
track now b notification_id user_id connection_id =
    if b.config.enabled
    then record b {
      pending =
          insert notification_id (new_pending now notification_id user_id connection_id) b.pending;
      stats = record b.stats { total_tracked = fetch_add b.stats.total_tracked 1 };
    }
    else b

-- The acknowledgment of a notification that was pending, removed from the map already.
unfoldable pub acknowledge_pending :
    Chrono → ℕ → MemoryAckBackend → ℕ → Str → PendingAckInfo → MemoryAckBackend × Bool
unfolding latency_ms
acknowledge_pending c now b notification_id user_id p =
    if p.user_id == user_id
    then (
      record b {
        stats = record b.stats {
          total_acked = fetch_add b.stats.total_acked 1;
          total_latency_ms = fetch_add b.stats.total_latency_ms (latency_ms c now p);
        };
      },
      true,
    )
    else (record b { pending = insert notification_id p b.pending }, false)

unfoldable pub acknowledge_found :
    Chrono → ℕ → MemoryAckBackend → ℕ → Str → Option PendingAckInfo → MemoryAckBackend × Bool
unfolding acknowledge_pending
acknowledge_found c now b notification_id user_id none = (b, false)
acknowledge_found c now b notification_id user_id (some p) =
    acknowledge_pending c now (record b { pending = remove notification_id b.pending })
      notification_id user_id p

unfoldable pub acknowledge : Chrono → ℕ → MemoryAckBackend → ℕ → Str → MemoryAckBackend × Bool
unfolding acknowledge_found
acknowledge c now b notification_id user_id =
    if b.config.enabled
    then acknowledge_found c now b notification_id user_id (get notification_id b.pending)
    else (b, false)

unfoldable pub get_pending : MemoryAckBackend → ℕ → Option PendingAckInfo
get_pending b notification_id = get notification_id b.pending

-- `now` gives the reading of the clock at which each entry is tested.
abbrev pub outdated : Chrono → (PendingAckInfo → ℕ) → MemoryAckBackend → ℕ × PendingAckInfo → Bool
outdated c now b e = is_expired c (now e.1) e.1 b.config.timeout_seconds

unfoldable pub cleanup_expired :
    Chrono → (PendingAckInfo → ℕ) → MemoryAckBackend → MemoryAckBackend × ℕ
unfolding is_expired
cleanup_expired c now b =
    let expired_count = count (outdated c now b) b.pending in
    let kept = retain (λ e. not (outdated c now b e)) b.pending in
    let stats =
      if ltb 0 expired_count
      then record b.stats { total_expired = fetch_add b.stats.total_expired expired_count }
      else b.stats in
    if b.config.enabled then (record b { pending = kept; stats = stats }, expired_count) else (b, 0)

unfoldable pub pending_count : MemoryAckBackend → ℕ
pending_count b = length b.pending

-- `AckBackendStats`, without the rate, a floating-point number that only reports.
pub record AckBackendStats : Type 0 where
  pub enabled : Bool
  pub total_tracked : ℕ
  pub total_acked : ℕ
  pub total_expired : ℕ
  pub pending_count : ℕ
  pub avg_latency_ms : ℕ

unfoldable pub calculate_avg_latency : ℕ → ℕ → ℕ
calculate_avg_latency total_latency_ms ack_count =
    if ltb 0 ack_count then total_latency_ms / ack_count else 0

unfoldable pub stats : MemoryAckBackend → AckBackendStats
unfolding calculate_avg_latency
stats b = record {
  enabled = b.config.enabled;
  total_tracked = b.stats.total_tracked;
  total_acked = b.stats.total_acked;
  total_expired = b.stats.total_expired;
  pending_count = length b.pending;
  avg_latency_ms = calculate_avg_latency b.stats.total_latency_ms b.stats.total_acked;
}
