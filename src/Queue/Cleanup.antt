-- ===== src/Queue/Cleanup.antt =====
-- What the removal of expired messages does to the map of queues.
use mathlib.Core.Path.{subst}
use ara_notification_service.Common.{
  ℕ, ◌+◌, ◌≡◌, refl, sym, inl, inr, arith, Bool, true, false, if◌then◌else◌, Bool-cases,
  Option-cases, Option, none, some, List, [], ◌∷◌, length, is_empty, contains, IsUnique, HashMap,
  Str, str_key, ◌==◌, get, insert, remove, keys, members, get-insert, get-remove,
  keys-insert-IsUnique, keys-remove-IsUnique, contains-keys, remove_absent,
}
use ara_notification_service.Queue.Core.{cleanup_queue, cleanup_user, cleanup_loop, total}
use ara_notification_service.Queue.Draining.{live, length-live}

module _ {M : Type 0} where
  total-insert :
      (k : Str) (q : List M) (m : HashMap Str (List M))
      → total (insert k q m) + length (members k m) ≡ total m + length q
  unfolding insert get
  total-insert k q [] = omega arith
  total-insert k q ((j, w) ∷ m) = ground (arith, total-insert k q m)

  total-remove :
      (k : Str) (m : HashMap Str (List M))
      → IsUnique (keys m)
      → total (remove k m) + length (members k m) ≡ total m
  unfolding remove get
  total-remove k [] u = omega arith
  total-remove k ((j, w) ∷ m) u =
      ground (arith, total-remove k m, contains-keys k m, remove_absent k m)

  -- No queue is empty, and no user has two.
  abbrev pub IsFilled : Option (List M) → Type 0
  IsFilled none = Unit
  IsFilled (some q) = is_empty q ≡ false

  pub record IsQueues (queues : HashMap Str (List M)) : Type 0 where
    pub users_unique : IsUnique (keys queues)
    pub filled : (u : Str) → IsFilled (get u queues)

  if-IsFilled :
      (b : Bool) (x y : Option (List M)) → IsFilled x → IsFilled y → IsFilled (if b then x else y)
  if-IsFilled true x y hx hy = hx
  if-IsFilled false x y hx hy = hy

  pub insert-IsQueues :
      (k : Str) (q : List M) (m : HashMap Str (List M))
      → is_empty q ≡ false
      → IsQueues m
      → IsQueues (insert k q m)
  insert-IsQueues k q m h v = record {
    users_unique = keys-insert-IsUnique k q m v.users_unique;
    filled = λ u.
        subst IsFilled (sym (get-insert u k q m))
          (if-IsFilled (u == k) (some q) (get u m) h (v.filled u));
  }

  pub remove-IsQueues : (k : Str) (m : HashMap Str (List M)) → IsQueues m → IsQueues (remove k m)
  remove-IsQueues k m v = record {
    users_unique = keys-remove-IsUnique k m v.users_unique;
    filled = λ u.
        subst IsFilled (sym (get-remove u k m))
          (if-IsFilled (u == k) none (get u m) tt (v.filled u));
  }

module _ {M : Type 0} (expired : M → Bool) where
  -- A queue without its expired messages, and no queue if none is left.
  abbrev pub trimmed : Option (List M) → Option (List M)
  trimmed none = none
  trimmed (some q) = if is_empty (live expired q) then none else some (live expired q)

  -- What one round may have done to the map: it trimmed the one queue and counted what it removed.
  abbrev Cleaned : Str → HashMap Str (List M) → HashMap Str (List M) × ℕ → Type 0
  Cleaned u m (m', n) =
      ((j : Str) → get j m' ≡ (if j == u then trimmed (get u m) else get j m))
      × (total m' + n ≡ total m)
      × IsQueues m'

  cleanup_queue_lem :
      (u : Str) (q : List M) (m : HashMap Str (List M))
      → get u m ≡ some q
      → IsQueues m
      → Cleaned u m (cleanup_queue expired u q m)
  unfolding cleanup_queue
  cleanup_queue_lem u q m h v = elim (Bool-cases (is_empty (live expired q))) [
    | inl e ↦ rw e (
      λ j. ground (arith, get-remove j u m),
      ground (arith, total-remove u m v.users_unique, empty-length (live expired q)),
      remove-IsQueues u m v,
    )
    | inr e ↦ rw e (
      λ j. ground (arith, get-insert j u (live expired q) m),
      ground (arith, total-insert u (live expired q) m, length-live expired q),
      insert-IsQueues u (live expired q) m e v,
    )
  ]
    where
      empty-length : (l : List M) → is_empty l ≡ true → length l ≡ 0
      empty-length [] z = refl
      empty-length (x ∷ l) z = cc

  cleanup_user-none :
      (u : Str) (m : HashMap Str (List M)) → get u m ≡ none → cleanup_user expired u m ≡ (m, 0)
  unfolding cleanup_user
  cleanup_user-none u m h = rw (h, cleanup_user)

  cleanup_user-some :
      (u : Str) (m : HashMap Str (List M)) {q : List M}
      → get u m ≡ some q
      → cleanup_user expired u m ≡ cleanup_queue expired u q m
  unfolding cleanup_user
  cleanup_user-some u m h = rw (h, cleanup_user)

  cleanup_user_lem :
      (u : Str) (m : HashMap Str (List M)) → IsQueues m → Cleaned u m (cleanup_user expired u m)
  unfolding cleanup_user
  cleanup_user_lem u m v = elim (Option-cases (get u m)) [
    | inl h ↦
        subst (Cleaned u m) (sym (cleanup_user-none u m h)) (λ j. ground arith, omega arith, v)
    | inr (q, h) ↦ subst (Cleaned u m) (sym (cleanup_user-some u m h)) (cleanup_queue_lem u q m h v)
  ]

  -- The whole sweep over users who stand in the list once: their queues are trimmed, the others stay,
  -- and the count is what the total has lost.
  pub cleanup_loop_lem :
      (us : List Str) (m : HashMap Str (List M)) (n : ℕ)
      → IsUnique us
      → IsQueues m
      → let (m', removed) = cleanup_loop expired us m n in
        ((j : Str) → get j m' ≡ (if contains j us then trimmed (get j m) else get j m))
        × (total m' + removed ≡ total m + n)
        × IsQueues m'
  unfolding cleanup_loop contains
  cleanup_loop_lem [] m n u v = (λ j. refl, refl, v)
  cleanup_loop_lem (k ∷ us) m n u v =
      let out = cleanup_user expired k m in
      let (one, sum, w) = cleanup_user_lem k m v in
      let (rest, sums, w') = cleanup_loop_lem us out.0 (n + out.1) u.1 w in
      (λ j. ground (arith, one j, rest j), omega arith, w')
