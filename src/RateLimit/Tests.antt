-- ===== src/RateLimit/Tests.antt =====
-- Runs of the limiter, and the theorems at concrete inputs.
use ara_notification_service.Common.{
  ℕ, ◌+◌, ◌-◌, ◌*◌, ◌≤◌, ◌≡◌, refl, arith, true, false, List, [], ◌∷◌, length, get, insert,
  Str-discrete, ℕ_discrete,
}
use ara_notification_service.Fixtures.{alice}
use ara_notification_service.RateLimit.TokenBucket.{TokenBucket, try_consume, retry_after}
use ara_notification_service.RateLimit.TokenBucket
use ara_notification_service.RateLimit.Bounds.{
  granted, consume_all, Ordered, last_of, Spaced, IsOrdinary, granted-Spaced, consume_all-tokens-le,
}
use ara_notification_service.RateLimit.Limiter.{RateLimitConfig, default_config, new, check_key}
use ara_notification_service.RateLimit.Checks.{
  Check, allowed_for, created_at, times_of, allowed_for-le,
}

abbrev times : List ℕ
times = 1000 ∷ 2000 ∷ 3000 ∷ 4500 ∷ []

times-Ordered : Ordered 0 times
times-Ordered = ground arith

consume_all-tokens-le_example : (consume_all (TokenBucket.new 0 2 1) times).tokens ≤ 2
consume_all-tokens-le_example = consume_all-tokens-le 0 2 1 times

-- The bucket of an address under the default of 10 connections for each minute.
abbrev address : TokenBucket
address = record { tokens = 10; last_refill = 0; capacity = 10; refill_rate = 1 }

address-IsOrdinary : IsOrdinary address
address-IsOrdinary = (omega arith, omega arith, omega arith, omega arith, omega arith)

times-Spaced : Spaced 0 times
times-Spaced = ground arith

granted-Spaced_example : granted address times ≡ length times
granted-Spaced_example = granted-Spaced address times address-IsOrdinary times-Spaced

abbrev at : ℕ → Check
at t = record { clock = record { created = t; consumed = t; reported = t }; key = alice }

abbrev on : RateLimitConfig
on = record default_config { enabled = true; http_requests_per_second = 1; http_burst_size = 1 }

abbrev checks : List Check
checks = at 10 ∷ at 20 ∷ at 2000 ∷ []

checks-Ordered : Ordered (created_at alice checks) (times_of alice checks)
unfolding Str-discrete ℕ_discrete
checks-Ordered = ground arith

allowed_for-le_example :
    1000 * allowed_for alice (new on) checks
    ≤ 1000 * on.http_burst_size
      + (last_of (created_at alice checks) (times_of alice checks) - created_at alice checks)
        * on.http_requests_per_second
allowed_for-le_example = allowed_for-le on alice checks refl checks-Ordered

two_of_three_test : allowed_for alice (new on) checks ≡ 2
unfolding check_key new get insert Str-discrete ℕ_discrete
two_of_three_test = refl

-- With the largest capacity, one more token makes the sum of 32 bits wrap to 0.
wrapped_test : (try_consume 1000 (TokenBucket.new 0 4294967295 1)).1 ≡ false
unfolding try_consume TokenBucket.new
wrapped_test = refl
