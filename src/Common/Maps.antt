-- ===== src/Common/Maps.antt =====
-- Hash maps as association lists: one entry for each key, in some order of iteration.
use Prim.Native.Nat.{◌+◌, ◌≤◌}
use mathlib.Core.Path.{◌≡◌, refl}
use mathlib.Core.Option.{Option, none, some}
use mathlib.Core.List.{List, [], ◌∷◌}
use mathlib.Core.Bool.{Bool, true, false, not, ◌&&◌, ◌||◌}
use native.Mathlib.Omega.{arith}
use ara_notification_service.Common.Lists.{length, contains, IsUnique}
use ara_notification_service.Common.Tests.{Key, ◌==◌, if◌then◌else◌}

abbrev pub HashMap {ℓ κ} : Type ℓ → Type κ → Type (ℓ ⊔ κ)
HashMap K V = List (K × V)

abbrev pub is_some {ℓ} : {A : Type ℓ} → Option A → Bool
is_some none = false
is_some (some a) = true

module _ {ℓ κ} {K : Type ℓ} {V : Type κ} where
  abbrev pub keys : HashMap K V → List K
  keys [] = []
  keys ((k, v) ∷ m) = k ∷ keys m

  abbrev pub values : HashMap K V → List V
  values [] = []
  values ((k, v) ∷ m) = v ∷ values m

module _ {ℓ κ} {K : Type ℓ} {V : Type κ} ⦃e : Key K⦄ where
  unfoldable pub get : K → HashMap K V → Option V
  get k [] = none
  get k ((j, v) ∷ m) = if k == j then some v else get k m

  unfoldable pub insert : K → V → HashMap K V → HashMap K V
  insert k v [] = (k, v) ∷ []
  insert k v ((j, w) ∷ m) = if k == j then (k, v) ∷ m else (j, w) ∷ insert k v m

  unfoldable pub remove : K → HashMap K V → HashMap K V
  remove k [] = []
  remove k ((j, v) ∷ m) = let rest = remove k m in if k == j then rest else (j, v) ∷ rest

  abbrev pub contains_key : K → HashMap K V → Bool
  contains_key k m = is_some (get k m)

  pub get-insert :
      (j k : K) (v : V) (m : HashMap K V)
      → get j (insert k v m) ≡ (if j == k then some v else get j m)
  unfolding get insert
  get-insert j k v [] = refl
  get-insert j k v ((i, w) ∷ m) = ground (arith, get-insert j k v m)

  pub get-remove :
      (j k : K) (m : HashMap K V) → get j (remove k m) ≡ (if j == k then none else get j m)
  unfolding get remove
  get-remove j k [] = ground arith
  get-remove j k ((i, w) ∷ m) = ground (arith, get-remove j k m)

  pub contains-keys : (k : K) (m : HashMap K V) → contains k (keys m) ≡ is_some (get k m)
  unfolding get contains
  contains-keys k [] = refl
  contains-keys k ((j, v) ∷ m) = ground (arith, contains-keys k m)

  pub is_some-get-insert :
      (j k : K) (v : V) (m : HashMap K V)
      → is_some (get j (insert k v m)) ≡ (j == k || is_some (get j m))
  is_some-get-insert j k v m = ground (arith, get-insert j k v m)

  contains-keys-insert :
      (j k : K) (v : V) (m : HashMap K V)
      → contains j (keys (insert k v m)) ≡ (j == k || contains j (keys m))
  contains-keys-insert j k v m =
      ground (arith, contains-keys j (insert k v m), contains-keys j m, is_some-get-insert j k v m)

  contains-keys-remove :
      (j k : K) (m : HashMap K V)
      → contains j (keys (remove k m)) ≡ (not (j == k) && contains j (keys m))
  contains-keys-remove j k m =
      ground (arith, contains-keys j (remove k m), contains-keys j m, get-remove j k m)

  pub keys-insert-IsUnique :
      (k : K) (v : V) (m : HashMap K V) → IsUnique (keys m) → IsUnique (keys (insert k v m))
  unfolding insert contains
  keys-insert-IsUnique k v [] h = (refl, tt)
  keys-insert-IsUnique k v ((j, w) ∷ m) h =
      ground (arith, keys-insert-IsUnique k v m, contains-keys-insert j k v m)

  pub keys-remove-IsUnique :
      (k : K) (m : HashMap K V) → IsUnique (keys m) → IsUnique (keys (remove k m))
  unfolding remove
  keys-remove-IsUnique k [] h = tt
  keys-remove-IsUnique k ((j, w) ∷ m) h =
      ground (arith, keys-remove-IsUnique k m, contains-keys-remove j k m)

  pub length-insert :
      (k : K) (v : V) (m : HashMap K V)
      → length (insert k v m) ≡ length m + (if is_some (get k m) then 0 else 1)
  unfolding insert get
  length-insert k v [] = omega arith
  length-insert k v ((j, w) ∷ m) = ground (arith, length-insert k v m)

  pub remove_absent : (k : K) (m : HashMap K V) → get k m ≡ none → remove k m ≡ m
  unfolding get remove
  remove_absent k [] h = refl
  remove_absent k ((j, w) ∷ m) h = ground (arith, remove_absent k m)

  pub length-remove :
      (k : K) (m : HashMap K V)
      → IsUnique (keys m)
      → length (remove k m) + (if is_some (get k m) then 1 else 0) ≡ length m
  unfolding get remove
  length-remove k [] h = omega arith
  length-remove k ((j, w) ∷ m) h =
      ground (arith, length-remove k m, contains-keys k m, remove_absent k m)

  pub length-remove-le : (k : K) (m : HashMap K V) → length (remove k m) ≤ length m
  unfolding remove
  length-remove-le k [] = omega arith
  length-remove-le k ((j, w) ∷ m) = ground (arith, length-remove-le k m)
