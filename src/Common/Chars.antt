-- ===== src/Common/Chars.antt =====
-- The characters of a text in UTF-8, and which of them are letters or digits. The tables of Unicode
-- beyond ASCII are not part of the repository, and a parameter.
use Prim.Native.Nat.{ℕ, zero, suc, ◌+◌, ◌*◌, ◌%◌}
use mathlib.Core.Path.{◌≡◌}
use mathlib.Core.List.{List, [], ◌∷◌}
use mathlib.Core.Bool.{Bool, true, false, ◌&&◌, ◌||◌}
use ara_notification_service.Common.Tests.{Str, ltb, leb, if◌then◌else◌}

-- How many bytes follow the first byte of a character.
unfoldable pub following : ℕ → ℕ
following b = if ltb b 224 then 1 else if ltb b 240 then 2 else 3

-- What the first byte of a character adds to its code point.
unfoldable pub leading : ℕ → ℕ
leading b = if ltb b 224 then b % 32 else if ltb b 240 then b % 16 else b % 8

-- `text.chars()`: the code points, from the bytes to come of a character and its bits so far.
unfoldable pub chars_from : ℕ → ℕ → Str → List ℕ
unfolding following leading
chars_from pending bits [] = []
chars_from zero bits (b ∷ s) =
    let one = b ∷ chars_from 0 0 s in
    let more = chars_from (following b) (leading b) s in if ltb b 128 then one else more
chars_from (suc zero) bits (b ∷ s) = (bits * 64 + b % 64) ∷ chars_from 0 0 s
chars_from (suc (suc pending)) bits (b ∷ s) = chars_from (suc pending) (bits * 64 + b % 64) s

-- A text in UTF-8, as every `String` is: the bytes that follow in a character are 128 to 191.
unfoldable pub utf8_from : ℕ → Str → Bool
unfolding following
utf8_from zero [] = true
utf8_from (suc pending) [] = false
utf8_from zero (b ∷ s) =
    let one = utf8_from 0 s in
    let more = utf8_from (following b) s in if ltb b 128 then one else leb 192 b && more
utf8_from (suc pending) (b ∷ s) = leb 128 b && ltb b 192 && utf8_from pending s

abbrev pub IsUtf8 : Str → Type 0
IsUtf8 s = utf8_from 0 s ≡ true

-- An ASCII letter or digit.
abbrev ascii_alphanumeric : ℕ → Bool
ascii_alphanumeric c =
    (leb b'0' c && leb c b'9') || (leb b'A' c && leb c b'Z') || (leb b'a' c && leb c b'z')

abbrev pub all_chars : (ℕ → Bool) → List ℕ → Bool
all_chars p [] = true
all_chars p (c ∷ cs) = p c && all_chars p cs

-- `c.is_alphanumeric()`, with the letters and digits beyond ASCII first.
abbrev pub is_alphanumeric : (ℕ → Bool) → ℕ → Bool
is_alphanumeric unicode_alphanumeric c =
    if ltb c 128 then ascii_alphanumeric c else unicode_alphanumeric c
