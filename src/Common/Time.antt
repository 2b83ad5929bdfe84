-- ===== src/Common/Time.antt =====
-- The time library of the service (the crate chrono, not part of the repository) as a record of the
-- functions that the source calls, with the documented laws that theorems rely on. A point in time
-- is a number that grows with time.
use Prim.Native.Nat.{ℕ, ◌≤◌}
use mathlib.Core.Bool.{Bool}
use mathlib.Core.Option.{Option}
use ara_notification_service.Common.Int.{ℤ, ◌≤ℤ◌}

pub record Chrono : Type 0 where
  -- `t.timestamp()`: Unix seconds.
  pub timestamp : ℕ → ℤ
  -- `DateTime::from_timestamp(secs, 0)`.
  pub from_timestamp : ℤ → Option ℕ
  -- `now.signed_duration_since(t).num_seconds()`, with `now` first.
  pub num_seconds_since : ℕ → ℕ → ℤ
  -- `now.signed_duration_since(t).num_milliseconds()`, with `now` first.
  pub num_milliseconds_since : ℕ → ℕ → ℤ
  -- `now.signed_duration_since(t) > Duration::seconds(s)`, with `now` first.
  pub longer_than : ℕ → ℕ → ℤ → Bool
  -- `t + Duration::seconds(s)`.
  pub add_seconds : ℕ → ℤ → ℕ

-- As the clock moves on, the age of a fixed point in time does not fall.
pub record IsMonotone (c : Chrono) : Type 0 where
  pub seconds_mono :
      (now later t : ℕ) → now ≤ later → c.num_seconds_since now t ≤ℤ c.num_seconds_since later t
