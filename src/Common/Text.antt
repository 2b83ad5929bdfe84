-- ===== src/Common/Text.antt =====
-- Texts: literals, numbers in decimal, and the pieces of a list joined by a separator.
use Prim.Native.Char.{code}
use Prim.Native.String.{String}
use Prim.Native.Nat.{ℕ, zero, suc, ◌+◌, ◌/◌, ◌%◌}
use mathlib.Core.List.{List, [], ◌∷◌, ◌++◌}
use ara_notification_service.Common.Tests.{Str, nat_key, ltb, ◌==◌, if◌then◌else◌}
use mathlib.Core.Bool.{Bool, true, false}

-- The code points of a literal, which are its bytes when the text is ASCII.
abbrev pub codes : String → Str
codes String.[] = []
codes (String.◌∷◌ c s) = code c ∷ codes s

-- The digits of a number before `out`, with fuel: a round divides the number by ten, so that one more
-- round than the number is enough.
unfoldable pub digits : ℕ → ℕ → Str → Str
digits zero n out = out
digits (suc fuel) n out =
    let longer = digits fuel (n / 10) ((b'0' + n % 10) ∷ out) in
    if ltb n 10 then (b'0' + n) ∷ out else longer

-- `n.to_string()`.
unfoldable pub to_string : ℕ → Str
unfolding digits
to_string n = digits (suc n) n []

-- `texts.join(separator)`.
abbrev pub join_with : Str → List Str → Str
join_with separator [] = []
join_with separator (x ∷ []) = x
join_with separator (x ∷ y ∷ rest) = x ++ separator ++ join_with separator (y ∷ rest)

-- The order of two texts by their bytes.
abbrev pub before : Str → Str → Bool
before s [] = false
before [] (y ∷ t) = true
before (x ∷ s) (y ∷ t) = if x == y then before s t else ltb x y

-- `texts.sort()`.
abbrev sort_insert : Str → List Str → List Str
sort_insert s [] = s ∷ []
sort_insert s (t ∷ ts) = if before t s then t ∷ sort_insert s ts else s ∷ t ∷ ts

unfoldable pub sort : List Str → List Str
sort [] = []
sort (s ∷ ss) = sort_insert s (sort ss)
