-- ===== src/Common/Int.antt =====
-- Signed 64-bit numbers as integers over the native numbers: what `as i64` and the signed
-- comparisons of the source need.
use Prim.Native.Nat.{ℕ, suc, ◌+◌, ◌-◌, ◌%◌, ◌^◌, ◌≤◌}
use mathlib.Core.Bool.{Bool, true}
use mathlib.Core.Path.{◌≡◌}
use native.Mathlib.Omega.{arith}
use ara_notification_service.Common.Tests.{ltb, leb, if◌then◌else◌}

-- `negsuc n` is -(n + 1).
pub data ℤ : Type 0 where
  pos : ℕ → ℤ
  negsuc : ℕ → ℤ

abbrev pub pos_part : ℤ → ℕ
pos_part (pos n) = n
pos_part (negsuc n) = 0

abbrev pub neg_part : ℤ → ℕ
neg_part (pos n) = 0
neg_part (negsuc n) = suc n

abbrev pub sub_ℕ : ℕ → ℕ → ℤ
sub_ℕ a b = if leb b a then pos (a - b) else negsuc (b - a - 1)

infix 50 ◌≤ℤ◌
abbrev pub ◌≤ℤ◌ : ℤ → ℤ → Type 0
a ≤ℤ b = pos_part a + neg_part b ≤ pos_part b + neg_part a

abbrev pub leb_ℤ : ℤ → ℤ → Bool
leb_ℤ a b = leb (pos_part a + neg_part b) (pos_part b + neg_part a)

-- `n as i64` for an unsigned 64-bit `n`: the upper half wraps to the negative numbers.
abbrev pub as_i64 : ℕ → ℤ
as_i64 n = if ltb n (2 ^ 63) then pos n else negsuc (2 ^ 64 - 1 - n)

pub leb_ℤ-trans : (a b c : ℤ) → leb_ℤ a b ≡ true → b ≤ℤ c → leb_ℤ a c ≡ true
leb_ℤ-trans a b c h k = ground arith

abbrev pub ltb_ℤ : ℤ → ℤ → Bool
ltb_ℤ a b = ltb (pos_part a + neg_part b) (pos_part b + neg_part a)

-- `fetch_add` on an atomic `u64`, which wraps.
abbrev pub fetch_add : ℕ → ℕ → ℕ
fetch_add x n = (x + n) % 2 ^ 64

-- `fetch_sub` on an atomic `u64`.
abbrev pub fetch_sub : ℕ → ℕ → ℕ
fetch_sub x n = (x + (2 ^ 64 - n)) % 2 ^ 64
