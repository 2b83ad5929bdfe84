-- ===== src/RateLimit/Limiter.antt =====
-- `RateLimiter` of src/domain/ratelimit/limiter.rs and its configuration, config.rs. A call reads the
-- clock up to three times: for a bucket that it creates, to consume, and to report.
use ara_notification_service.Common.{
  ℕ, ◌+◌, ◌-◌, ◌*◌, ◌/◌, ◌%◌, ◌^◌, Bool, true, false, not, if◌then◌else◌, max, Option, none, some,
  [], ◌∷◌, length, count, retain, HashMap, Str, str_key, get, insert, ℤ, sub_ℕ, as_i64, leb_ℤ,
}
use ara_notification_service.RateLimit.TokenBucket.{
  TokenBucket, try_consume, available, retry_after,
}
use ara_notification_service.RateLimit.TokenBucket

pub record RateLimitConfig : Type 0 where
  pub enabled : Bool
  pub http_requests_per_second : ℕ
  pub http_burst_size : ℕ
  pub ws_connections_per_minute : ℕ
  pub ws_messages_per_second : ℕ
  pub cleanup_interval_seconds : ℕ
  pub bucket_ttl_seconds : ℕ
  pub backend : Str
  pub redis_prefix : Str

abbrev pub default_config : RateLimitConfig
default_config = record {
  enabled = false;
  http_requests_per_second = 100;
  http_burst_size = 200;
  ws_connections_per_minute = 10;
  ws_messages_per_second = 50;
  cleanup_interval_seconds = 60;
  bucket_ttl_seconds = 300;
  backend = b'l' ∷ b'o' ∷ b'c' ∷ b'a' ∷ b'l' ∷ [];
  redis_prefix =
      b'a' ∷ b'r' ∷ b'a' ∷ b':' ∷ b'r' ∷ b'a' ∷ b't' ∷ b'e' ∷ b'l' ∷ b'i' ∷ b'm' ∷ b'i' ∷ b't' ∷ [];
}

pub data RateLimitResult : Type 0 where
  allowed : (remaining limit reset_at : ℕ) → RateLimitResult
  denied : (retry_after limit reset_at : ℕ) → RateLimitResult

abbrev pub is_allowed : RateLimitResult → Bool
is_allowed (allowed _ _ _) = true
is_allowed (denied _ _ _) = false

-- An address is the list of its bytes.
pub record RateLimiter : Type 0 where
  pub ip_buckets : HashMap Str TokenBucket
  pub key_buckets : HashMap Str TokenBucket
  pub config : RateLimitConfig

unfoldable pub new : RateLimitConfig → RateLimiter
new config = record { ip_buckets = []; key_buckets = []; config = config }

pub record Clock : Type 0 where
  pub created : ℕ
  pub consumed : ℕ
  pub reported : ℕ

abbrev pub bucket_or : Option TokenBucket → TokenBucket → TokenBucket
bucket_or none fresh = fresh
bucket_or (some b) fresh = b

-- The answer once `try_consume` has left the bucket in a state and said whether it granted.
abbrev pub answer_ip : Clock → ℕ → ℕ → TokenBucket × Bool → RateLimitResult
answer_ip t limit reset_at (b, true) = allowed (available t.reported b) limit reset_at
answer_ip t limit reset_at (b, false) = denied 60 limit reset_at

abbrev pub answer_key : Clock → ℕ → ℕ → TokenBucket × Bool → RateLimitResult
answer_key t limit reset_at (b, true) = allowed (available t.reported b) limit reset_at
answer_key t limit reset_at (b, false) = denied (retry_after t.reported b) limit reset_at

-- `RateLimitResult` of a limiter that is switched off.
abbrev pub unlimited : RateLimitResult
unlimited = allowed (2 ^ 32 - 1) 0 0

-- `(limit as f64 / 60.0).ceil() as u32`, which is exact for 32-bit limits.
abbrev pub per_second : ℕ → ℕ
per_second limit = (limit + 59) / 60

-- The bucket of an address, created on first use.
unfoldable pub ip_bucket : Clock → RateLimiter → Str → TokenBucket
unfolding TokenBucket.new
ip_bucket t r ip =
    let limit = r.config.ws_connections_per_minute in
    bucket_or (get ip r.ip_buckets) (TokenBucket.new t.created limit (max (per_second limit) 1))

unfoldable pub check_ip : Clock → RateLimiter → Str → RateLimiter × RateLimitResult
unfolding ip_bucket try_consume available
check_ip t r ip =
    let b = ip_bucket t r ip in
    let out = try_consume t.consumed b in
    if r.config.enabled
    then (
      record r { ip_buckets = insert ip out.0 r.ip_buckets },
      answer_ip t r.config.ws_connections_per_minute (b.last_refill + 60000) out,
    )
    else (r, unlimited)

unfoldable pub key_bucket : Clock → RateLimiter → Str → TokenBucket
unfolding TokenBucket.new
key_bucket t r key =
    bucket_or (get key r.key_buckets)
      (TokenBucket.new t.created r.config.http_burst_size r.config.http_requests_per_second)

unfoldable pub check_key : Clock → RateLimiter → Str → RateLimiter × RateLimitResult
unfolding key_bucket try_consume available retry_after
check_key t r key =
    let b = key_bucket t r key in
    let out = try_consume t.consumed b in
    if r.config.enabled
    then (
      record r { key_buckets = insert key out.0 r.key_buckets },
      answer_key t r.config.http_requests_per_second (b.last_refill + 1000) out,
    )
    else (r, unlimited)

-- `to_string` of the standard library's addresses is a parameter.
abbrev pub key_or_ip : (Str → Str) → Option Str → Str → Str
key_or_ip to_string none ip = to_string ip
key_or_ip to_string (some k) ip = k

unfoldable pub check_http :
    (Str → Str) → Clock → RateLimiter → Option Str → Str → RateLimiter × RateLimitResult
unfolding check_key
check_http to_string t r key ip = check_key t r (key_or_ip to_string key ip)

-- `(bucket_ttl_seconds * 1000) as i64`, the product of 64 bits.
abbrev pub ttl_ms : RateLimitConfig → ℤ
ttl_ms config = as_i64 (config.bucket_ttl_seconds * 1000 % 2 ^ 64)

abbrev pub is_stale : ℕ → RateLimiter → Str × TokenBucket → Bool
is_stale now r e = leb_ℤ (ttl_ms r.config) (sub_ℕ now e.1.last_refill)

unfoldable pub cleanup_stale : ℕ → RateLimiter → RateLimiter × ℕ
cleanup_stale now r = (
  record r {
    ip_buckets = retain (λ e. not (is_stale now r e)) r.ip_buckets;
    key_buckets = retain (λ e. not (is_stale now r e)) r.key_buckets;
  },
  count (is_stale now r) r.ip_buckets + count (is_stale now r) r.key_buckets,
)

pub record RateLimiterStats : Type 0 where
  pub enabled : Bool
  pub ip_buckets : ℕ
  pub key_buckets : ℕ
  pub http_limit : ℕ
  pub ws_limit : ℕ

unfoldable pub stats : RateLimiter → RateLimiterStats
stats r = record {
  enabled = r.config.enabled;
  ip_buckets = length r.ip_buckets;
  key_buckets = length r.key_buckets;
  http_limit = r.config.http_requests_per_second;
  ws_limit = r.config.ws_connections_per_minute;
}
