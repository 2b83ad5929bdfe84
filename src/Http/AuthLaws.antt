-- ===== src/Http/AuthLaws.antt =====
-- What the authentication of requests lets through.
use ara_notification_service.Common.{
  ℕ, zero, suc, ◌/◌, ◌^◌, ◌<◌, ◌≡◌, ◌⊎◌, refl, sym, ◌∙◌, ap, inl, inr, arith, true, false,
  Bool-cases, ◌&&◌, Option, none, some, [], ◌∷◌, length, Str, nat_key, str_key, ◌==◌, ==_iff, ok,
}
use ara_notification_service.Tenant.Context.{TenantContext}
use ara_notification_service.Tenant.Manager.{TenantManager, create_context}
use ara_notification_service.Http.Auth.{
  bit_xor, bit_or, difference, constant_time_eq, Unicode, is_valid_tenant_id, tenant_context,
  api_key_auth,
}

-- Every byte is below 256.
abbrev pub IsBytes : Str → Type 0
IsBytes [] = Unit
IsBytes (x ∷ s) = (x < 256) × IsBytes s

half : (k n : ℕ) → n < 2 ^ suc k → n / 2 < 2 ^ k
half k n h = omega arith

-- `a ^ b` is zero for equal numbers only.
bit_xor-zero : (k a b : ℕ) → a < 2 ^ k → b < 2 ^ k → (bit_xor k a b == 0) ≡ (a == b)
unfolding bit_xor
bit_xor-zero zero a b ha hb = ground arith
bit_xor-zero (suc k) a b ha hb =
    ground (arith, bit_xor-zero k (a / 2) (b / 2) (half k a ha) (half k b hb))

-- `a | b` is zero if both are.
bit_or-zero : (k a b : ℕ) → a < 2 ^ k → b < 2 ^ k → (bit_or k a b == 0) ≡ ((a == 0) && (b == 0))
unfolding bit_or
bit_or-zero zero a b ha hb = ground arith
bit_or-zero (suc k) a b ha hb =
    ground (arith, bit_or-zero k (a / 2) (b / 2) (half k a ha) (half k b hb))

bit_xor-lt : (k a b : ℕ) → bit_xor k a b < 2 ^ k
unfolding bit_xor
bit_xor-lt zero a b = omega arith
bit_xor-lt (suc k) a b = omega (arith, bit_xor-lt k (a / 2) (b / 2))

bit_or-lt : (k a b : ℕ) → bit_or k a b < 2 ^ k
unfolding bit_or
bit_or-lt zero a b = omega arith
bit_or-lt (suc k) a b = ground (arith, bit_or-lt k (a / 2) (b / 2))

difference-zero :
    (a b : Str) (acc : ℕ)
    → IsBytes a
    → IsBytes b
    → acc < 256
    → length a ≡ length b
    → (difference acc a b == 0) ≡ ((acc == 0) && (a == b))
unfolding difference
difference-zero [] [] acc ha hb h l = ground arith
difference-zero [] (y ∷ b) acc ha hb h l = absurd (omega (arith, l))
difference-zero (x ∷ a) [] acc ha hb h l = absurd (omega (arith, l))
difference-zero (x ∷ a) (y ∷ b) acc (hx, ha) (hy, hb) h l =
    let bits = bit_xor 8 x y in
    ground (
      arith,
      difference-zero a b (bit_or 8 acc bits) ha hb (bit_or-lt 8 acc bits) (omega (arith, l)),
      bit_or-zero 8 acc bits h (bit_xor-lt 8 x y),
      bit_xor-zero 8 x y hx hy,
    )

-- The comparison in constant time decides the equality of two byte strings.
pub constant_time_eq-== : (a b : Str) → IsBytes a → IsBytes b → constant_time_eq a b ≡ (a == b)
unfolding constant_time_eq
constant_time_eq-== a b ha hb = elim (Bool-cases (length a == length b)) [
  | inl e ↦ rw e (
      ground
        (arith, difference-zero a b 0 ha hb (omega arith) ((==_iff (length a) (length b)).0 e)))
  | inr e ↦ rw e (sym (different a b e))
]
  where
    different : (a b : Str) → (length a == length b) ≡ false → (a == b) ≡ false
    different a b e = ground arith

abbrev AllBytes : Option Str → Type 0
AllBytes none = Unit
AllBytes (some s) = IsBytes s

module _ (u : Unicode) (m : TenantManager) where
  -- The tenant of an accepted request: none without multi-tenancy; with it, the tenant of the header,
  -- whose name has 1 to 64 bytes.
  abbrev pub TenantOk : Option Str → Option TenantContext → Type 0
  TenantOk header ctx =
      ((m.config.enabled ≡ false) × (ctx ≡ none))
      ⊎ ((m.config.enabled ≡ true)
          × ((h : Str) × (header ≡ some h)
              × (is_valid_tenant_id u (u.trim h) ≡ true)
              × (ctx ≡ some (create_context m (u.trim h)))))

  tenant_context-ok :
      (header : Option Str) (ctx : Option TenantContext)
      → tenant_context u m header ≡ ok ctx
      → TenantOk header ctx
  unfolding tenant_context
  tenant_context-ok none ctx h = elim (Bool-cases m.config.enabled) [
    | inl e ↦ absurd (ground arith)
    | inr e ↦ inl (e, ground arith)
  ]
  tenant_context-ok (some header) ctx h = elim (Bool-cases m.config.enabled) [
    | inr e ↦ inl (e, ground arith)
    | inl e ↦ elim (Bool-cases (is_valid_tenant_id u (u.trim header))) [
      | inl v ↦ inr (e, (header, refl, v, accepted e v))
      | inr v ↦ absurd (refused e v)
    ]
  ]
    where
      accepted :
          m.config.enabled ≡ true
          → is_valid_tenant_id u (u.trim header) ≡ true
          → ctx ≡ some (create_context m (u.trim header))
      accepted e v = ground arith

      refused : m.config.enabled ≡ true → is_valid_tenant_id u (u.trim header) ≡ false → ⊥
      refused e v = ground arith

  -- In production, a request goes on only with the configured key, and, where multi-tenancy is
  -- enabled, only with a header that names a valid tenant, under whose context it goes on.
  pub api_key_auth-production :
      (key api_key header : Option Str) (ctx : Option TenantContext)
      → AllBytes key
      → AllBytes api_key
      → api_key_auth u m true key api_key header ≡ ok ctx
      → ((k : Str) × (key ≡ some k) × (api_key ≡ some k)) × TenantOk header ctx
  unfolding api_key_auth
  api_key_auth-production none api_key header ctx bk ba h = absurd (ground arith)
  api_key_auth-production (some k) none header ctx bk ba h = absurd (ground arith)
  api_key_auth-production (some k) (some a) header ctx bk ba h =
      elim (Bool-cases (constant_time_eq a k)) [
        | inl e ↦
            let same : a ≡ k = (==_iff a k).0 (sym (constant_time_eq-== a k ba bk) ∙ e) in
            ((k, refl, ap some same), tenant_context-ok header ctx (passed e))
        | inr e ↦ absurd (refused e)
      ]
    where
      passed : constant_time_eq a k ≡ true → tenant_context u m header ≡ ok ctx
      passed e = ground arith

      refused : constant_time_eq a k ≡ false → ⊥
      refused e = ground arith
