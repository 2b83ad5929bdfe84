-- ===== src/RateLimit/Bounds.antt =====
-- What a token bucket grants over time.
use mathlib.Core.Path.{subst}
use native.Mathlib.Nat.{add-mul, mul-le-mul}
use ara_notification_service.Common.{
  ℕ, ◌+◌, ◌-◌, ◌*◌, ◌/◌, ◌%◌, ◌^◌, ◌≤◌, ◌≡◌, refl, sym, ◌∙◌, ap, arith, inl, inr, false, Bool-cases,
  if◌then◌else◌, ltb, min, List, [], ◌∷◌, length,
}
use ara_notification_service.RateLimit.TokenBucket.{
  TokenBucket, new, tokens_to_add, refilled, try_consume_n, try_consume,
}

-- The requests at the given times, in turn, and how many are granted.
abbrev pub consume_all : TokenBucket → List ℕ → TokenBucket
consume_all b [] = b
consume_all b (t ∷ ts) = consume_all (try_consume t b).0 ts

abbrev pub granted : TokenBucket → List ℕ → ℕ
granted b [] = 0
granted b (t ∷ ts) = (if (try_consume t b).1 then 1 else 0) + granted (try_consume t b).0 ts

-- The clock does not run backwards.
abbrev pub Ordered : ℕ → List ℕ → Type 0
Ordered t [] = Unit
Ordered t (u ∷ us) = (t ≤ u) × Ordered u us

abbrev pub last_of : ℕ → List ℕ → ℕ
last_of t [] = t
last_of t (u ∷ us) = last_of u us

-- A call leaves no more than the capacity, and grants one token only if there is one.
try_consume_lem :
    (t : ℕ) (b : TokenBucket)
    → (if (try_consume t b).1
        then ((try_consume t b).0.tokens + 1 ≡ refilled t b) × ((try_consume t b).0.last_refill ≡ t)
        else (try_consume t b).0 ≡ b)
      × ((try_consume t b).0.capacity ≡ b.capacity)
      × ((try_consume t b).0.refill_rate ≡ b.refill_rate)
unfolding try_consume try_consume_n
try_consume_lem t b = elim (Bool-cases (ltb (refilled t b) 1)) [
  | inl h ↦ rw h (refl, refl, refl)
  | inr h ↦ rw h ((ground arith, refl), refl, refl)
]

thousandths : (x : ℕ) → 1000 * (x % 2 ^ 64 / 1000 % 2 ^ 32) ≤ x
thousandths x = omega arith

-- The tokens that a stretch of time brings, in thousandths.
tokens_to_add-le :
    (t : ℕ) (b : TokenBucket) → 1000 * tokens_to_add t b ≤ (t - b.last_refill) * b.refill_rate
unfolding tokens_to_add
tokens_to_add-le t b = thousandths ((t - b.last_refill) * b.refill_rate)

-- The bucket after some grants: what was granted and what is left fit in the capacity and what the
-- time since `s` has brought.
abbrev Fits : ℕ → ℕ → TokenBucket → Type 0
Fits s n b =
    (s ≤ b.last_refill)
    × (1000 * (n + b.tokens) ≤ 1000 * b.capacity + (b.last_refill - s) * b.refill_rate)

stretch : (s l t r : ℕ) → s ≤ l → l ≤ t → (t - l) * r + (l - s) * r ≡ (t - s) * r
stretch s l t r a b = sym (add-mul (t - l) (l - s) r) ∙ ap (λ x. x * r) (omega arith)

try_consume-Fits :
    (s n t : ℕ) (b : TokenBucket)
    → b.last_refill ≤ t
    → Fits s n b
    → Fits s (n + (if (try_consume t b).1 then 1 else 0)) (try_consume t b).0
      × ((try_consume t b).0.last_refill ≤ t)
unfolding try_consume try_consume_n refilled
try_consume-Fits s n t b h (l, f) = elim (Bool-cases (ltb (refilled t b) 1)) [
  | inl e ↦ rw e ((l, omega arith), h)
  | inr e ↦ rw e (
    (
      omega arith,
      omega (
        arith,
        ltb_false (refilled t b) e,
        refilled-le,
        tokens_to_add-le t b,
        stretch s b.last_refill t b.refill_rate l h,
      ),
    ),
    omega arith,
  )
]
  where
    ltb_false : (x : ℕ) → ltb x 1 ≡ false → 1 ≤ x
    ltb_false x z = ground arith

    refilled-le : refilled t b ≤ b.tokens + tokens_to_add t b
    refilled-le = omega arith

granted-Fits :
    (s n t : ℕ) (b : TokenBucket) (ts : List ℕ)
    → b.last_refill ≤ t
    → Ordered t ts
    → Fits s n b
    → 1000 * (n + granted b ts) ≤ 1000 * b.capacity + (last_of t ts - s) * b.refill_rate
granted-Fits s n t b [] h o f = omega (arith, f.1, stretch s b.last_refill t b.refill_rate f.0 h)
granted-Fits s n t b (u ∷ ts) h o f =
    let (f', h') = try_consume-Fits s n u b (omega (arith, o.0)) f in
    let b' = (try_consume u b).0 in
    let rest = granted-Fits s (n + (if (try_consume u b).1 then 1 else 0)) u b' ts h' o.1 f' in
    omega (
      arith,
      subst
          (λ r.
            1000 * (n + (if (try_consume u b).1 then 1 else 0) + granted b' ts)
            ≤ 1000 * b'.capacity + (last_of u ts - s) * r)
          (try_consume_lem u b).2 rest,
      (try_consume_lem u b).1,
    )

-- However the requests come, as long as the clock does not run backwards: a bucket that is new at time
-- `s` (milliseconds) grants no more requests than its capacity and `refill_rate` for each second.
pub granted-le :
    (s capacity refill_rate : ℕ) (ts : List ℕ)
    → Ordered s ts
    → 1000 * granted (new s capacity refill_rate) ts
      ≤ 1000 * capacity + (last_of s ts - s) * refill_rate
unfolding new
granted-le s capacity refill_rate ts o = omega (
  arith,
  granted-Fits s 0 s (new s capacity refill_rate) ts (omega arith) o (omega arith, omega arith),
)

try_consume-tokens-le :
    (t : ℕ) (b : TokenBucket) {k : ℕ}
    → b.capacity ≤ k
    → b.tokens ≤ k
    → (try_consume t b).0.tokens ≤ k
unfolding try_consume try_consume_n refilled
try_consume-tokens-le t b c h = ground arith

-- No call leaves more tokens than the capacity.
pub consume_all-tokens-le :
    (s capacity refill_rate : ℕ) (ts : List ℕ)
    → (consume_all (new s capacity refill_rate) ts).tokens ≤ capacity
unfolding new
consume_all-tokens-le s capacity refill_rate ts =
    go (new s capacity refill_rate) ts (omega arith) (omega arith)
  where
    go :
        (b : TokenBucket) (ts : List ℕ)
        → b.capacity ≤ capacity
        → b.tokens ≤ capacity
        → (consume_all b ts).tokens ≤ capacity
    go b [] c h = h
    go b (t ∷ ts) c h =
        go (try_consume t b).0 ts (omega (arith, (try_consume_lem t b).1))
          (try_consume-tokens-le t b c h)

-- Do the requests come one to a thousand seconds apart, the first after `t`?
abbrev pub Spaced : ℕ → List ℕ → Type 0
Spaced t [] = Unit
Spaced t (u ∷ us) = (t + 1000 ≤ u) × (u ≤ t + 1000 * 1000) × Spaced u us

-- A bucket of ordinary size: a capacity from 1 to 2^31, from 1 to 1000 tokens for each second, and no
-- more tokens than the capacity. It is far from the wrap-around of 32 bits.
abbrev pub IsOrdinary : TokenBucket → Type 0
IsOrdinary b =
    (1 ≤ b.capacity)
    × (b.capacity ≤ 2 ^ 31)
    × (1 ≤ b.refill_rate)
    × (b.refill_rate ≤ 1000)
    × (b.tokens ≤ b.capacity)

paced :
    (e r : ℕ)
    → 1000 ≤ e
    → e ≤ 1000 * 1000
    → 1 ≤ r
    → r ≤ 1000
    → (1000 ≤ e * r) × (e * r ≤ 1000 * 1000 * 1000)
paced e r a b c d = (omega (arith, mul-le-mul a c), omega (arith, mul-le-mul b d))

refilled-paced :
    (t : ℕ) (b : TokenBucket)
    → IsOrdinary b
    → b.last_refill + 1000 ≤ t
    → t ≤ b.last_refill + 1000 * 1000
    → 1 ≤ refilled t b
unfolding refilled tokens_to_add
refilled-paced t b (c, c', r, r', k) l u =
    let (low, high) = paced (t - b.last_refill) b.refill_rate (omega arith) (omega arith) r r' in
    room ((t - b.last_refill) * b.refill_rate) low high
  where
    room :
        (x : ℕ)
        → 1000 ≤ x
        → x ≤ 1000 * 1000 * 1000
        → 1 ≤ min ((b.tokens + x % 2 ^ 64 / 1000 % 2 ^ 32) % 2 ^ 32) b.capacity
    room x low high = omega arith

-- A bucket with a capacity from 1 to 2^31, a rate from 1 to 1000 tokens for each second, and no more
-- tokens than its capacity grants every request of a row in which each comes one to a thousand seconds
-- after the one before, the first after the last refill, however long the row is.
pub granted-Spaced :
    (b : TokenBucket) (ts : List ℕ)
    → IsOrdinary b
    → Spaced b.last_refill ts
    → granted b ts ≡ length ts
unfolding try_consume try_consume_n
granted-Spaced b [] p o = refl
granted-Spaced b (t ∷ ts) p o = ground (
  arith,
  refilled-paced t b p o.0 o.1,
  granted-Spaced (try_consume t b).0 ts,
  try_consume_lem t b,
  try_consume-tokens-le t b,
)
