-- ===== src/RateLimit/Checks.antt =====
-- The checks of keys by `RateLimiter` (src/domain/ratelimit/limiter.rs) in any sequence.
use mathlib.Core.Path.{ap₂}
use ara_notification_service.Common.{
  ℕ, ◌+◌, ◌-◌, ◌*◌, ◌≤◌, ◌≡◌, refl, sym, ◌∙◌, ap, arith, inl, inr, Bool, true, false, ◌&&◌,
  Bool-cases, if◌then◌else◌, none, some, List, [], ◌∷◌, Str, str_key, ◌==◌, ==_iff, get, get-insert,
}
use ara_notification_service.RateLimit.TokenBucket.{TokenBucket, try_consume}
use ara_notification_service.RateLimit.TokenBucket
use ara_notification_service.RateLimit.Limiter.{
  RateLimitConfig, RateLimiter, Clock, is_allowed, new, key_bucket, check_key, answer_key,
}
use ara_notification_service.RateLimit.Bounds.{granted, Ordered, last_of, granted-le}

-- A check of a key, with its clock readings.
pub record Check : Type 0 where
  pub clock : Clock
  pub key : Str

abbrev pub check_all : RateLimiter → List Check → RateLimiter
check_all r [] = r
check_all r (x ∷ xs) = check_all (check_key x.clock r x.key).0 xs

-- How many of the checks of a key are allowed.
abbrev pub allowed_for : Str → RateLimiter → List Check → ℕ
allowed_for k r [] = 0
allowed_for k r (x ∷ xs) =
    let (r', answer) = check_key x.clock r x.key in
    (if k == x.key && is_allowed answer then 1 else 0) + allowed_for k r' xs

-- The times at which the checks of a key consume.
abbrev pub times_of : Str → List Check → List ℕ
times_of k [] = []
times_of k (x ∷ xs) = if k == x.key then x.clock.consumed ∷ times_of k xs else times_of k xs

is_allowed-answer_key :
    (t : Clock) (limit reset_at : ℕ) (out : TokenBucket × Bool)
    → is_allowed (answer_key t limit reset_at out) ≡ out.1
is_allowed-answer_key t limit reset_at (b, true) = refl
is_allowed-answer_key t limit reset_at (b, false) = refl

check_key_lem :
    (t : Clock) (r : RateLimiter) (key k : Str)
    → r.config.enabled ≡ true
    → (is_allowed (check_key t r key).1 ≡ (try_consume t.consumed (key_bucket t r key)).1)
      × (get k (check_key t r key).0.key_buckets ≡ (
          if k == key
          then some (try_consume t.consumed (key_bucket t r key)).0
          else get k r.key_buckets))
      × ((check_key t r key).0.config ≡ r.config)
unfolding check_key
check_key_lem t r key k on = elim (Bool-cases r.config.enabled) [
  | inl e ↦ (
    ground (
      arith,
      is_allowed-answer_key t r.config.http_requests_per_second
          ((key_bucket t r key).last_refill + 1000) (try_consume t.consumed (key_bucket t r key)),
    ),
    ground (arith, get-insert k key (try_consume t.consumed (key_bucket t r key)).0 r.key_buckets),
    ground arith,
  )
  | inr e ↦ absurd (ground arith)
]

key_bucket_found :
    (t : Clock) (r : RateLimiter) (key : Str) (b : TokenBucket)
    → get key r.key_buckets ≡ some b
    → key_bucket t r key ≡ b
unfolding key_bucket
key_bucket_found t r key b h = rw (h, key_bucket) refl

-- A key that has a bucket: its checks run on that bucket alone.
allowed_for-granted :
    (k : Str) (r : RateLimiter) (b : TokenBucket) (xs : List Check)
    → r.config.enabled ≡ true
    → get k r.key_buckets ≡ some b
    → allowed_for k r xs ≡ granted b (times_of k xs)
allowed_for-granted k r b [] on h = refl
allowed_for-granted k r b (x ∷ xs) on h =
    let (answer, buckets, config) = check_key_lem x.clock r x.key k on in
    let r' = (check_key x.clock r x.key).0 in
    let on' = ap (λ g. g.enabled) config ∙ on in
    elim (Bool-cases (k == x.key)) [
      | inl e ↦
          let same =
            key_bucket_found x.clock r x.key b
              (ap (λ j. get j r.key_buckets) (sym ((==_iff k x.key).0 e)) ∙ h) in
          let moved = ap (try_consume x.clock.consumed) same in
          let found =
            buckets
            ∙ ap
                (λ q.
                  if q
                  then some (try_consume x.clock.consumed (key_bucket x.clock r x.key)).0
                  else get k r.key_buckets)
                e
            ∙ ap (λ o. some o.0) moved in
          rw e (
            ap₂ (λ a n. (if a then 1 else 0) + n) (answer ∙ ap (λ o. o.1) moved)
              (allowed_for-granted k r' (try_consume x.clock.consumed b).0 xs on' found))
      | inr e ↦
          let found =
            buckets
            ∙ ap
                (λ q.
                  if q
                  then some (try_consume x.clock.consumed (key_bucket x.clock r x.key)).0
                  else get k r.key_buckets)
                e
            ∙ h in
          rw e (omega (arith, allowed_for-granted k r' b xs on' found))
    ]

-- The clock when the first check of the key created its bucket.
abbrev pub created_at : Str → List Check → ℕ
created_at k [] = 0
created_at k (x ∷ xs) = if k == x.key then x.clock.created else created_at k xs

abbrev fresh_bucket : RateLimitConfig → ℕ → TokenBucket
fresh_bucket config s = TokenBucket.new s config.http_burst_size config.http_requests_per_second

key_bucket_absent :
    (t : Clock) (r : RateLimiter) (key : Str)
    → get key r.key_buckets ≡ none
    → key_bucket t r key ≡ fresh_bucket r.config t.created
unfolding key_bucket
key_bucket_absent t r key h = rw (h, key_bucket) refl

allowed_for_absent :
    (k : Str) (r : RateLimiter) (xs : List Check)
    → r.config.enabled ≡ true
    → get k r.key_buckets ≡ none
    → allowed_for k r xs ≡ granted (fresh_bucket r.config (created_at k xs)) (times_of k xs)
allowed_for_absent k r [] on h = refl
allowed_for_absent k r (x ∷ xs) on h =
    let (answer, buckets, config) = check_key_lem x.clock r x.key k on in
    let r' = (check_key x.clock r x.key).0 in
    let on' = ap (λ g. g.enabled) config ∙ on in
    let b = fresh_bucket r.config x.clock.created in
    elim (Bool-cases (k == x.key)) [
      | inl e ↦
          let same =
            key_bucket_absent x.clock r x.key
              (ap (λ j. get j r.key_buckets) (sym ((==_iff k x.key).0 e)) ∙ h) in
          let moved = ap (try_consume x.clock.consumed) same in
          let found =
            buckets
            ∙ ap
                (λ q.
                  if q
                  then some (try_consume x.clock.consumed (key_bucket x.clock r x.key)).0
                  else get k r.key_buckets)
                e
            ∙ ap (λ o. some o.0) moved in
          rw e (
            ap₂ (λ a n. (if a then 1 else 0) + n) (answer ∙ ap (λ o. o.1) moved)
              (allowed_for-granted k r' (try_consume x.clock.consumed b).0 xs on' found))
      | inr e ↦
          let found =
            buckets
            ∙ ap
                (λ q.
                  if q
                  then some (try_consume x.clock.consumed (key_bucket x.clock r x.key)).0
                  else get k r.key_buckets)
                e
            ∙ h in
          rw e (
            omega (arith, allowed_for_absent k r' xs on' found)
            ∙ ap (λ g. granted (fresh_bucket g (created_at k xs)) (times_of k xs)) config)
    ]

-- For each key, whatever other keys are checked in between: a limiter that is switched on allows no
-- more checks than the burst size and `http_requests_per_second` for each second since the first,
-- while the clock of the key's checks does not run backwards.
pub allowed_for-le :
    (config : RateLimitConfig) (k : Str) (xs : List Check)
    → config.enabled ≡ true
    → Ordered (created_at k xs) (times_of k xs)
    → 1000 * allowed_for k (new config) xs
      ≤ 1000 * config.http_burst_size
        + (last_of (created_at k xs) (times_of k xs) - created_at k xs)
          * config.http_requests_per_second
unfolding new get
allowed_for-le config k xs on o = omega (
  arith,
  allowed_for_absent k (new config) xs on refl,
  granted-le (created_at k xs) config.http_burst_size config.http_requests_per_second
      (times_of k xs) o,
)
