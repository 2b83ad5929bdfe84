-- ===== src/Common/Index.antt =====
-- An index: a map from a key to the identifiers filed under it. An entry that the last identifier
-- leaves is dropped.
use Prim.Native.Nat.{◌+◌, ◌≤◌}
use mathlib.Core.Path.{◌≡◌, refl, sym, subst}
use mathlib.Core.Logic.{inl, inr}
use mathlib.Core.Option.{Option, none, some}
use mathlib.Core.List.{List, [], ◌∷◌, ◌++◌}
use mathlib.Core.Bool.{Bool, true, false, not, ◌&&◌, ◌||◌}
use native.Mathlib.Omega.{arith}
use ara_notification_service.Common.Tests.{Key, ◌==◌, if◌then◌else◌, Option-cases, Bool-cases}
use ara_notification_service.Common.Lists.{
  contains, is_empty, length, length-append, contains-append, contains-one, is_empty-contains,
  set_insert, set_remove, contains-set_insert, contains-set_remove, IsUnique, push-IsUnique,
  set_insert-IsUnique, retain-IsUnique, length-retain-le,
}
use ara_notification_service.Common.Maps.{
  HashMap, get, insert, remove, keys, get-insert, get-remove, keys-insert-IsUnique,
  keys-remove-IsUnique,
}

module _ {ℓ κ} {K : Type ℓ} {I : Type κ} ⦃e : Key K⦄ where
  -- `idx.get(k)` with the empty collection for a missing key (`entry(k).or_default()`).
  abbrev pub members : K → HashMap K (List I) → List I
  members k idx = elim (get k idx) [ none ↦ [] | some s ↦ s ]

  -- `idx.entry(k).or_default().push(id)` on a vector.
  unfoldable pub index_push : K → I → HashMap K (List I) → HashMap K (List I)
  index_push k i idx = insert k (members k idx ++ i ∷ []) idx

module _ {κ} {I : Type κ} ⦃d : Key I⦄ where
  -- An entry is not empty and holds no identifier twice.
  abbrev pub EntryOk : Option (List I) → Type κ
  EntryOk none = Unit
  EntryOk (some s) = (is_empty s ≡ false) × IsUnique s

  if-EntryOk :
      (b : Bool) (x y : Option (List I)) → EntryOk x → EntryOk y → EntryOk (if b then x else y)
  if-EntryOk true x y hx hy = hx
  if-EntryOk false x y hx hy = hy

  is_empty-push : (s : List I) (i : I) → is_empty (s ++ i ∷ []) ≡ false
  is_empty-push [] i = refl
  is_empty-push (x ∷ s) i = refl

  is_empty-set_insert : (s : List I) (i : I) → is_empty (set_insert i s) ≡ false
  is_empty-set_insert s i = ground (arith, is_empty-push s i, is_empty-contains s i)

module _ {ℓ κ} {K : Type ℓ} {I : Type κ} ⦃e : Key K⦄ ⦃d : Key I⦄ where
  -- `idx.entry(k).or_default().insert(id)` on a hash set.
  unfoldable pub index_insert : K → I → HashMap K (List I) → HashMap K (List I)
  index_insert k i idx = insert k (set_insert i (members k idx)) idx

  -- What follows a `get_mut` that found `s`: drop the identifier, then the entry if it is empty.
  unfoldable pub index_drop : K → I → List I → HashMap K (List I) → HashMap K (List I)
  index_drop k i s idx =
      let rest = set_remove i s in if is_empty rest then remove k idx else insert k rest idx

  unfoldable pub index_remove : K → I → HashMap K (List I) → HashMap K (List I)
  unfolding index_drop
  index_remove k i idx = elim (get k idx) [ none ↦ idx | some s ↦ index_drop k i s idx ]

  -- Is the identifier filed under the key?
  abbrev pub filed : HashMap K (List I) → K → I → Bool
  filed idx k i = contains i (members k idx)

  pub filed-index_push :
      (k j : K) (i n : I) (idx : HashMap K (List I))
      → filed (index_push k i idx) j n ≡ ((j == k && n == i) || filed idx j n)
  unfolding index_push
  filed-index_push k j i n idx = ground (
    arith,
    get-insert j k (members k idx ++ i ∷ []) idx,
    contains-append n (members k idx) (i ∷ []),
    contains-one i n,
  )

  pub filed-index_insert :
      (k j : K) (i n : I) (idx : HashMap K (List I))
      → filed (index_insert k i idx) j n ≡ ((j == k && n == i) || filed idx j n)
  unfolding index_insert
  filed-index_insert k j i n idx = ground (
    arith,
    get-insert j k (set_insert i (members k idx)) idx,
    contains-set_insert i n (members k idx),
  )

  filed-index_drop :
      (k j : K) (i n : I) (s : List I) (idx : HashMap K (List I))
      → get k idx ≡ some s
      → filed (index_drop k i s idx) j n ≡ (not (j == k && n == i) && filed idx j n)
  unfolding index_drop
  filed-index_drop k j i n s idx h = ground (
    arith,
    get-insert j k (set_remove i s) idx,
    get-remove j k idx,
    contains-set_remove i n s,
    is_empty-contains (set_remove i s) n,
  )

  pub filed-index_remove :
      (k j : K) (i n : I) (idx : HashMap K (List I))
      → filed (index_remove k i idx) j n ≡ (not (j == k && n == i) && filed idx j n)
  unfolding index_remove contains
  filed-index_remove k j i n idx = elim (Option-cases (get k idx)) [
    | inl h ↦ ground arith
    | inr (s, h) ↦ rw (h, index_remove) (filed-index_drop k j i n s idx h)
  ]

  pub record IsIndex (idx : HashMap K (List I)) : Type (ℓ ⊔ κ) where
    pub keys_unique : IsUnique (keys idx)
    pub entries : (k : K) → EntryOk (get k idx)

  pub insert-IsIndex :
      (k : K) (s : List I) (idx : HashMap K (List I))
      → is_empty s ≡ false
      → IsUnique s
      → IsIndex idx
      → IsIndex (insert k s idx)
  insert-IsIndex k s idx h u v = record {
    keys_unique = keys-insert-IsUnique k s idx v.keys_unique;
    entries = λ j.
        subst EntryOk (sym (get-insert j k s idx))
          (if-EntryOk (j == k) (some s) (get j idx) (h, u) (v.entries j));
  }

  pub remove-IsIndex : (k : K) (idx : HashMap K (List I)) → IsIndex idx → IsIndex (remove k idx)
  remove-IsIndex k idx v = record {
    keys_unique = keys-remove-IsUnique k idx v.keys_unique;
    entries = λ j.
        subst EntryOk (sym (get-remove j k idx))
          (if-EntryOk (j == k) none (get j idx) tt (v.entries j));
  }

  pub members-IsUnique : (k : K) (idx : HashMap K (List I)) → IsIndex idx → IsUnique (members k idx)
  members-IsUnique k idx v = go (get k idx) (v.entries k)
    where
      go :
          (o : Option (List I))
          → EntryOk o
          → IsUnique (elim o as (λ x. List I) [ none ↦ [] | some s ↦ s ])
      go none h = tt
      go (some s) h = h.1

  pub index_push-IsIndex :
      (k : K) (i : I) (idx : HashMap K (List I))
      → filed idx k i ≡ false
      → IsIndex idx
      → IsIndex (index_push k i idx)
  unfolding index_push
  index_push-IsIndex k i idx new v =
      insert-IsIndex k (members k idx ++ i ∷ []) idx (is_empty-push (members k idx) i)
        (push-IsUnique i (members k idx) new (members-IsUnique k idx v)) v

  pub index_insert-IsIndex :
      (k : K) (i : I) (idx : HashMap K (List I)) → IsIndex idx → IsIndex (index_insert k i idx)
  unfolding index_insert
  index_insert-IsIndex k i idx v =
      insert-IsIndex k (set_insert i (members k idx)) idx (is_empty-set_insert (members k idx) i)
        (set_insert-IsUnique i (members k idx) (members-IsUnique k idx v)) v

  index_drop-IsIndex :
      (k : K) (i : I) (s : List I) (idx : HashMap K (List I))
      → IsUnique s
      → IsIndex idx
      → IsIndex (index_drop k i s idx)
  unfolding index_drop
  index_drop-IsIndex k i s idx u v = elim (Bool-cases (is_empty (set_remove i s))) [
    | inl h ↦ rw h (remove-IsIndex k idx v)
    | inr h ↦ rw h (insert-IsIndex k (set_remove i s) idx h (retain-IsUnique _ s u) v)
  ]

  pub index_remove-IsIndex :
      (k : K) (i : I) (idx : HashMap K (List I)) → IsIndex idx → IsIndex (index_remove k i idx)
  unfolding index_remove
  index_remove-IsIndex k i idx v = elim (Option-cases (get k idx)) [
    | inl h ↦ rw (h, index_remove) v
    | inr (s, h) ↦
        rw (h, index_remove) (index_drop-IsIndex k i s idx (subst EntryOk h (v.entries k)).1 v)
  ]

  pub length-members-index_push :
      (k j : K) (i : I) (idx : HashMap K (List I))
      → length (members j (index_push k i idx)) ≡ length (members j idx) + (if j == k then 1 else 0)
  unfolding index_push
  length-members-index_push k j i idx =
      ground (
        arith,
        get-insert j k (members k idx ++ i ∷ []) idx,
        length-append (members k idx) (i ∷ []),
      )

  length-members-index_drop-le :
      (k j : K) (i : I) (s : List I) (idx : HashMap K (List I))
      → get k idx ≡ some s
      → length (members j (index_drop k i s idx)) ≤ length (members j idx)
  unfolding index_drop
  length-members-index_drop-le k j i s idx h = ground (
    arith,
    get-insert j k (set_remove i s) idx,
    get-remove j k idx,
    length-retain-le (λ x. not (x == i)) s,
  )

  pub length-members-index_remove-le :
      (k j : K) (i : I) (idx : HashMap K (List I))
      → length (members j (index_remove k i idx)) ≤ length (members j idx)
  unfolding index_remove
  length-members-index_remove-le k j i idx = elim (Option-cases (get k idx)) [
    | inl h ↦ ground arith
    | inr (s, h) ↦ rw (h, index_remove) (length-members-index_drop-le k j i s idx h)
  ]
