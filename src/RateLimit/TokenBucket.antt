-- ===== src/RateLimit/TokenBucket.antt =====
-- `TokenBucket` of src/domain/ratelimit/token_bucket.rs, each call running alone. A time is what
-- `now_millis` returned: Unix milliseconds, never negative. Unsigned arithmetic wraps, as it does in a
-- release build.
use ara_notification_service.Common.{
  ℕ, ◌+◌, ◌-◌, ◌*◌, ◌/◌, ◌%◌, ◌^◌, Bool, true, false, ltb, if◌then◌else◌, min, max,
}

pub record TokenBucket : Type 0 where
  pub tokens : ℕ
  pub last_refill : ℕ
  pub capacity : ℕ
  pub refill_rate : ℕ

unfoldable pub new : ℕ → ℕ → ℕ → TokenBucket
new now capacity refill_rate = record {
  tokens = capacity;
  last_refill = now;
  capacity = capacity;
  refill_rate = refill_rate;
}

-- `(elapsed_ms * self.refill_rate as u64 / 1000) as u32`, with the elapsed time clamped at 0.
unfoldable pub tokens_to_add : ℕ → TokenBucket → ℕ
tokens_to_add now b = ((now - b.last_refill) * b.refill_rate % 2 ^ 64 / 1000) % 2 ^ 32

-- `(current + tokens_to_add).min(self.capacity)`.
unfoldable pub refilled : ℕ → TokenBucket → ℕ
unfolding tokens_to_add
refilled now b = min ((b.tokens + tokens_to_add now b) % 2 ^ 32) b.capacity

unfoldable pub try_consume_n : ℕ → TokenBucket → ℕ → TokenBucket × Bool
unfolding refilled
try_consume_n now b n =
    if ltb (refilled now b) n
    then (b, false)
    else (record b { tokens = refilled now b - n; last_refill = now }, true)

unfoldable pub try_consume : ℕ → TokenBucket → TokenBucket × Bool
unfolding try_consume_n
try_consume now b = try_consume_n now b 1

unfoldable pub available : ℕ → TokenBucket → ℕ
unfolding refilled
available now b = refilled now b

unfoldable pub retry_after : ℕ → TokenBucket → ℕ
unfolding available
retry_after now b = if ltb 0 (available now b) then 0 else max (1000 / max b.refill_rate 1 / 1000) 1

unfoldable pub last_activity : TokenBucket → ℕ
last_activity b = b.last_refill
