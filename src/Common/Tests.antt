-- ===== src/Common/Tests.antt =====
-- Boolean tests, the conditional, and types whose equality is decided.
use Prim.Native.Nat.{ℕ, ◌≤◌, ◌<◌, compare, Ordering}
use mathlib.Core.Path.{◌≡◌, refl}
use mathlib.Core.Logic.{◌↔◌, ◌⊎◌, inl, inr, ite}
use mathlib.Core.Bool.{Bool, true, false, ◌&&◌, ◌||◌}
use mathlib.Core.Option.{Option, none, some}
use mathlib.Core.List.{List}
use native.Mathlib.Decide.{ℕ_discrete}
use native.Mathlib.Omega.{arith}

abbrev pub ltb : ℕ → ℕ → Bool
ltb a b = elim (compare a b) [ Ordering.lt ↦ true | _ ↦ false ]

abbrev pub leb : ℕ → ℕ → Bool
leb a b = elim (compare a b) [ Ordering.gt ↦ false | _ ↦ true ]

infix 1 if◌then◌else◌
abbrev pub if◌then◌else◌ {ℓ} : {A : Type ℓ} → Bool → A → A → A
if true then x else y = x
if false then x else y = y

-- What a map's key type offers: a decision of equality.
pub record Key {ℓ} (K : Type ℓ) : Type ℓ where
  pub dec : Discrete K

infix 50 ◌≟◌ ◌==◌
abbrev pub ◌≟◌ {ℓ} : {K : Type ℓ} ⦃e : Key K⦄ → Discrete K
◌≟◌ ⦃e⦄ = e.dec

abbrev pub ◌==◌ {ℓ} : {K : Type ℓ} ⦃e : Key K⦄ → K → K → Bool
a == b = ite (a ≟ b) true false

-- A text is the list of its UTF-8 bytes.
abbrev pub Str : Type 0
Str = List ℕ

unfoldable pub Str-discrete : Discrete Str
Str-discrete = hlevel ℕ_discrete

instance abbrev pub nat_key : Key ℕ
nat_key = record { dec = ℕ_discrete }

instance abbrev pub str_key : Key Str
str_key = record { dec = Str-discrete }

pub ltb→lt : (a b : ℕ) → ltb a b ≡ true → a < b
ltb→lt a b h = ground arith

pub lt→ltb : (a b : ℕ) → a < b → ltb a b ≡ true
lt→ltb a b h = ground arith

pub leb→le : (a b : ℕ) → leb a b ≡ true → a ≤ b
leb→le a b h = ground arith

pub ruleset tests = (arith, ltb→lt, lt→ltb, leb→le)

pub Bool-cases : (b : Bool) → (b ≡ true) ⊎ (b ≡ false)
Bool-cases true = inl refl
Bool-cases false = inr refl

pub Option-cases {ℓ} : {A : Type ℓ} (o : Option A) → (o ≡ none) ⊎ ((a : A) × (o ≡ some a))
Option-cases none = inl refl
Option-cases (some a) = inr (a, refl)

pub ==_iff {ℓ} : {K : Type ℓ} ⦃e : Key K⦄ (a b : K) → ((a == b) ≡ true) ↔ (a ≡ b)
==_iff a b = ground arith

pub both-true : (a b : Bool) → (a && b) ≡ true → (a ≡ true) × (b ≡ true)
both-true a b h = ground arith

pub either-false : (a b : Bool) → a ≡ false → b ≡ false → (a || b) ≡ false
either-false a b h k = ground arith
