-- ===== src/Common/Lists.antt =====
-- Lists measured by native numbers, and membership as a Boolean.
use Prim.Native.Nat.{ℕ, zero, suc, ◌+◌, ◌≤◌}
use mathlib.Core.Path.{◌≡◌, refl}
use mathlib.Core.List.{List, [], ◌∷◌, ◌++◌}
use mathlib.Core.Bool.{Bool, true, false, not, ◌&&◌, ◌||◌}
use native.Mathlib.Omega.{arith}
use ara_notification_service.Common.Tests.{Key, ◌==◌, if◌then◌else◌}

module _ {ℓ} {A : Type ℓ} where
  abbrev pub length : List A → ℕ
  length [] = 0
  length (x ∷ xs) = suc (length xs)

  abbrev pub is_empty : List A → Bool
  is_empty [] = true
  is_empty (x ∷ xs) = false

  abbrev pub take : ℕ → List A → List A
  take zero xs = []
  take (suc n) [] = []
  take (suc n) (x ∷ xs) = x ∷ take n xs

  -- `Vec::retain` and `Iterator::filter`.
  unfoldable pub retain : (A → Bool) → List A → List A
  retain p [] = []
  retain p (x ∷ xs) = let rest = retain p xs in if p x then x ∷ rest else rest

  abbrev pub count : (A → Bool) → List A → ℕ
  count p [] = 0
  count p (x ∷ xs) = (if p x then 1 else 0) + count p xs

  pub length-append : (xs ys : List A) → length (xs ++ ys) ≡ length xs + length ys
  length-append [] ys = omega arith
  length-append (x ∷ xs) ys = omega (arith, length-append xs ys)

  pub length-retain : (p : A → Bool) (xs : List A) → length (retain p xs) ≡ count p xs
  unfolding retain
  length-retain p [] = refl
  length-retain p (x ∷ xs) = ground (arith, length-retain p xs)

  pub count-not : (p : A → Bool) (xs : List A) → count p xs + count (λ x. not (p x)) xs ≡ length xs
  count-not p [] = omega arith
  count-not p (x ∷ xs) = ground (arith, count-not p xs)

module _ {ℓ} {A : Type ℓ} ⦃e : Key A⦄ where
  unfoldable pub contains : A → List A → Bool
  contains a [] = false
  contains a (x ∷ xs) = a == x || contains a xs

  pub contains-append :
      (a : A) (xs ys : List A) → contains a (xs ++ ys) ≡ (contains a xs || contains a ys)
  unfolding contains
  contains-append a [] ys = refl
  contains-append a (x ∷ xs) ys = ground (arith, contains-append a xs ys)

  pub contains-retain :
      (a : A) (p : A → Bool) (xs : List A) → contains a (retain p xs) ≡ (p a && contains a xs)
  unfolding contains retain
  contains-retain a p [] = ground arith
  contains-retain a p (x ∷ xs) = ground (arith, contains-retain a p xs)

  -- No value stands twice in the list.
  abbrev pub IsUnique : List A → Type ℓ
  IsUnique [] = Unit
  IsUnique (x ∷ xs) = (contains x xs ≡ false) × IsUnique xs

  -- `set.insert(id)` on a hash set.
  abbrev pub set_insert : A → List A → List A
  set_insert i s = if contains i s then s else s ++ i ∷ []

  -- `set.remove(&id)`, and `retain(|x| *x != id)`.
  abbrev pub set_remove : A → List A → List A
  set_remove i s = retain (λ x. not (x == i)) s

  pub contains-one : (i j : A) → contains j (i ∷ []) ≡ (j == i)
  unfolding contains
  contains-one i j = ground arith

  pub is_empty-contains : (s : List A) (i : A) → is_empty s ≡ true → contains i s ≡ false
  unfolding contains
  is_empty-contains [] i h = refl
  is_empty-contains (x ∷ s) i h = ground arith

  pub contains-set_insert :
      (i j : A) (s : List A) → contains j (set_insert i s) ≡ (j == i || contains j s)
  contains-set_insert i j s = ground (arith, contains-append j s (i ∷ []), contains-one i j)

  pub contains-set_remove :
      (i j : A) (s : List A) → contains j (set_remove i s) ≡ (not (j == i) && contains j s)
  contains-set_remove i j s = contains-retain j (λ x. not (x == i)) s

  pub push-IsUnique :
      (i : A) (s : List A) → contains i s ≡ false → IsUnique s → IsUnique (s ++ i ∷ [])
  unfolding contains
  push-IsUnique i [] h u = (refl, tt)
  push-IsUnique i (x ∷ s) h u =
      ground (arith, push-IsUnique i s, contains-append x s (i ∷ []), contains-one i x)

  pub set_insert-IsUnique : (i : A) (s : List A) → IsUnique s → IsUnique (set_insert i s)
  set_insert-IsUnique i s u = ground (arith, push-IsUnique i s)

  pub retain-IsUnique : (p : A → Bool) (s : List A) → IsUnique s → IsUnique (retain p s)
  unfolding retain
  retain-IsUnique p [] u = tt
  retain-IsUnique p (x ∷ s) u = ground (arith, retain-IsUnique p s, contains-retain x p s)

  set_remove_absent : (i : A) (s : List A) → contains i s ≡ false → set_remove i s ≡ s
  unfolding retain contains
  set_remove_absent i [] h = refl
  set_remove_absent i (x ∷ s) h = ground (arith, set_remove_absent i s)

  pub length-set_remove :
      (i : A) (s : List A)
      → IsUnique s
      → length (set_remove i s) + (if contains i s then 1 else 0) ≡ length s
  unfolding retain contains
  length-set_remove i [] u = omega arith
  length-set_remove i (x ∷ s) u = ground (arith, length-set_remove i s, set_remove_absent i s)

module _ {ℓ} {A : Type ℓ} where
  abbrev pub sum_by : (A → ℕ) → List A → ℕ
  sum_by f [] = 0
  sum_by f (x ∷ xs) = f x + sum_by f xs

  pub length-retain-le : (p : A → Bool) (xs : List A) → length (retain p xs) ≤ length xs
  unfolding retain
  length-retain-le p [] = omega arith
  length-retain-le p (x ∷ xs) = ground (arith, length-retain-le p xs)

  abbrev pub any : (A → Bool) → List A → Bool
  any p [] = false
  any p (x ∷ xs) = p x || any p xs

  -- `VecDeque::pop_front`, the rest.
  abbrev pub tail : List A → List A
  tail [] = []
  tail (x ∷ xs) = xs

  abbrev pub drop : ℕ → List A → List A
  drop zero xs = xs
  drop (suc n) [] = []
  drop (suc n) (x ∷ xs) = drop n xs
