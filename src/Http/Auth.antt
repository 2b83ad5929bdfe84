-- ===== src/Http/Auth.antt =====
-- The authentication of requests, of src/server/middleware.rs. The trimming of a text rests on the
-- tables of Unicode, and is a parameter.
use ara_notification_service.Common.{
  ℕ, zero, suc, ◌+◌, ◌*◌, ◌/◌, ◌%◌, Bool, false, ◌||◌, ltb, if◌then◌else◌, Option, none, some, [],
  ◌∷◌, length, is_empty, Str, nat_key, str_key, ◌==◌, Result, ok, err, chars_from, all_chars,
  is_alphanumeric,
}
use ara_notification_service.Tenant.Context.{TenantContext}
use ara_notification_service.Tenant.Manager.{TenantManager, create_context}

-- `a ^ b` and `a | b` on numbers of so many bits.
unfoldable pub bit_xor : ℕ → ℕ → ℕ → ℕ
bit_xor zero a b = 0
bit_xor (suc bits) a b = (a % 2 + b % 2) % 2 + 2 * bit_xor bits (a / 2) (b / 2)

unfoldable pub bit_or : ℕ → ℕ → ℕ → ℕ
bit_or zero a b = 0
bit_or (suc bits) a b = (if a % 2 + b % 2 == 0 then 0 else 1) + 2 * bit_or bits (a / 2) (b / 2)

-- The fold over the pairs of bytes.
unfoldable pub difference : ℕ → Str → Str → ℕ
unfolding bit_xor bit_or
difference acc [] b = acc
difference acc (x ∷ a) [] = acc
difference acc (x ∷ a) (y ∷ b) = difference (bit_or 8 acc (bit_xor 8 x y)) a b

unfoldable pub constant_time_eq : Str → Str → Bool
unfolding difference
constant_time_eq a b = if length a == length b then difference 0 a b == 0 else false

-- What a request meets outside.
pub record Unicode : Type 0 where
  pub trim : Str → Str
  pub alphanumeric : ℕ → Bool

-- The same characters as in a channel name.
unfoldable pub tenant_char : Unicode → ℕ → Bool
tenant_char u c = is_alphanumeric u.alphanumeric c || c == b'-' || c == b'_' || c == b'.'

unfoldable pub is_valid_tenant_id : Unicode → Str → Bool
unfolding chars_from tenant_char
is_valid_tenant_id u id =
    let trimmed = u.trim id in
    if is_empty trimmed || ltb 64 (length trimmed)
    then false
    else all_chars (tenant_char u) (chars_from 0 0 trimmed)

-- The tenant of a request whose key is right, or the status of the refusal.
unfoldable pub tenant_context :
    Unicode → TenantManager → Option Str → Result (Option TenantContext) ℕ
unfolding is_valid_tenant_id create_context
tenant_context u m none = if m.config.enabled then err 400 else ok none
tenant_context u m (some header) =
    let tid = u.trim header in
    if m.config.enabled
    then (if is_valid_tenant_id u tid then ok (some (create_context m tid)) else err 400)
    else ok none

-- With the setting of production, the configured key, and the headers `X-API-Key` and `X-Tenant-ID`:
-- the tenant with which the request goes on, or the status of the refusal.
unfoldable pub api_key_auth :
    Unicode
    → TenantManager
    → Bool
    → Option Str
    → Option Str
    → Option Str
    → Result (Option TenantContext) ℕ
unfolding constant_time_eq tenant_context
api_key_auth u m is_production none api_key tenant_id = if is_production then err 503 else ok none
api_key_auth u m is_production (some expected_key) none tenant_id = err 401
api_key_auth u m is_production (some expected_key) (some key) tenant_id =
    if constant_time_eq key expected_key then tenant_context u m tenant_id else err 401
