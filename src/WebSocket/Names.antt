-- ===== src/WebSocket/Names.antt =====
-- `is_valid_channel_name` of src/domain/realtime/websocket/handler.rs. Which characters beyond ASCII
-- are letters or digits is a parameter.
use ara_notification_service.Common.{
  ℕ, zero, suc, ◌+◌, ◌*◌, ◌%◌, ◌≡◌, refl, inl, inr, Bool-cases, both-true, either-false, arith,
  Bool, true, false, ◌&&◌, ◌||◌, ltb, leb, if◌then◌else◌, chars_from, utf8_from, following, leading,
  all_chars, is_alphanumeric, IsUtf8, [], ◌∷◌, length, is_empty, contains, Str, nat_key, ◌==◌,
}
use ara_notification_service.Tenant.Context.{colon}
use ara_notification_service.Tenant.Isolation.{IsPlain}

module _ (unicode_alphanumeric : ℕ → Bool) where
  unfoldable name_char : ℕ → Bool
  name_char c = is_alphanumeric unicode_alphanumeric c || c == b'-' || c == b'_' || c == b'.'

  unfoldable pub is_valid_channel_name : Str → Bool
  unfolding chars_from name_char
  is_valid_channel_name name =
      if is_empty name || ltb 64 (length name)
      then false
      else all_chars name_char (chars_from 0 0 name)

  name_char-colon : (b : ℕ) → ltb b 128 ≡ true → name_char b ≡ true → (colon == b) ≡ false
  unfolding name_char
  name_char-colon b small h = ground arith

  following_byte :
      (b : ℕ) (rest : Bool)
      → (leb 128 b && ltb b 192 && rest) ≡ true
      → ((colon == b) ≡ false) × (rest ≡ true)
  following_byte b rest h = ground arith

  chars-IsPlain :
      (pending bits : ℕ) (s : Str)
      → utf8_from pending s ≡ true
      → all_chars name_char (chars_from pending bits s) ≡ true
      → contains colon s ≡ false
  unfolding chars_from utf8_from contains
  chars-IsPlain pending bits [] u h = refl
  chars-IsPlain zero bits (b ∷ s) u h = elim (Bool-cases (ltb b 128)) [
    | inl small ↦ ground (arith, chars-IsPlain 0 0 s, name_char-colon b)
    | inr large ↦ ground (arith, chars-IsPlain (following b) (leading b) s)
  ]
  chars-IsPlain (suc zero) bits (b ∷ s) u h =
      let (high, rest) = following_byte b (utf8_from 0 s) u in
      either-false (colon == b) (contains colon s) high
        (chars-IsPlain 0 0 s rest (both-true (name_char (bits * 64 + b % 64)) _ h).1)
  chars-IsPlain (suc (suc pending)) bits (b ∷ s) u h =
      let (high, rest) = following_byte b (utf8_from (suc pending) s) u in
      either-false (colon == b) (contains colon s) high
        (chars-IsPlain (suc pending) (bits * 64 + b % 64) s rest h)

  -- A channel name that the handler takes has at least one byte, at most 64, and none of them is the
  -- `:` that ends a tenant's prefix.
  pub is_valid_channel_name-IsPlain :
      (name : Str)
      → IsUtf8 name
      → is_valid_channel_name name ≡ true
      → (is_empty name ≡ false) × (leb (length name) 64 ≡ true) × IsPlain name
  unfolding is_valid_channel_name
  is_valid_channel_name-IsPlain name u h = ground (arith, chars-IsPlain 0 0 name)
