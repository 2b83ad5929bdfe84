-- ===== src/Fixtures.antt =====
-- Values that the tests of several components share: a clock that counts seconds, and some texts.
use native.Mathlib.Omega.{arith}
use ara_notification_service.Common.{
  ◌+◌, ◌*◌, some, [], ◌∷◌, Str, Chrono, IsMonotone, pos, sub_ℕ, pos_part, ltb_ℤ,
}

-- A clock whose points in time are Unix seconds.
abbrev pub clock : Chrono
clock = record {
  timestamp = λ t. pos t;
  from_timestamp = λ z. some (pos_part z);
  num_seconds_since = λ now t. sub_ℕ now t;
  num_milliseconds_since = λ now t. sub_ℕ (now * 1000) (t * 1000);
  longer_than = λ now t s. ltb_ℤ s (sub_ℕ now t);
  add_seconds = λ t s. t + pos_part s;
}

pub clock-IsMonotone : IsMonotone clock
clock-IsMonotone = record { seconds_mono = λ now later t h. ground arith }

abbrev pub alice : Str
alice = b'a' ∷ []

abbrev pub bob : Str
bob = b'b' ∷ []

abbrev pub acme : Str
acme = b'A' ∷ []

abbrev pub orders : Str
orders = b'o' ∷ b'r' ∷ []
