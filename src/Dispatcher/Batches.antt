-- ===== src/Dispatcher/Batches.antt =====
-- The batches of `send_to_users_for_tenant` against the whole list of users.
use ara_notification_service.Common.{
  ℕ, zero, suc, ◌+◌, ◌≤◌, ◌≡◌, refl, sym, ◌∙◌, ap, arith, Bool, if◌then◌else◌, Option, List, [],
  ◌∷◌, ◌++◌, length, is_empty, count, take, drop, Str,
}
use ara_notification_service.Connection.Types.{ConnectionHandle, ConnectionManager}
use ara_notification_service.Dispatcher.Model.{get_user_connections_filtered}
use ara_notification_service.Dispatcher.Handlers.{collect, chunks}

-- The connections of users, one user after the other.
abbrev pub users_connections : ConnectionManager → Option Str → List Str → List ConnectionHandle
users_connections m t [] = []
users_connections m t (u ∷ us) = get_user_connections_filtered m u t ++ users_connections m t us

module _ (p : ConnectionHandle → Bool) (m : ConnectionManager) (t : Option Str) where
  count-append : (xs ys : List ConnectionHandle) → count p (xs ++ ys) ≡ count p xs + count p ys
  count-append [] ys = omega arith
  count-append (x ∷ xs) ys = omega (arith, count-append xs ys)

  pub count-collect :
      (us : List Str) → count p (collect m t us).0 ≡ count p (users_connections m t us)
  unfolding collect
  count-collect [] = refl
  count-collect (u ∷ us) = go (get_user_connections_filtered m u t) (count-collect us)
    where
      go :
          (found : List ConnectionHandle)
          → count p (collect m t us).0 ≡ count p (users_connections m t us)
          → count p
              (if◌then◌else◌ {A = List ConnectionHandle × List Str}
                (is_empty found)
                ((collect m t us).0, u ∷ (collect m t us).1)
                (found ++ (collect m t us).0, (collect m t us).1)).0
            ≡ count p (found ++ users_connections m t us)
      go [] rest = rest
      go (h ∷ found) rest =
          count-append (h ∷ found) (collect m t us).0
          ∙ ap (λ n. count p (h ∷ found) + n) rest
          ∙ sym (count-append (h ∷ found) (users_connections m t us))

  count-take-drop :
      (n : ℕ) (us : List Str)
      → count p (users_connections m t (take n us)) + count p (users_connections m t (drop n us))
        ≡ count p (users_connections m t us)
  count-take-drop zero us = omega arith
  count-take-drop (suc n) [] = omega arith
  count-take-drop (suc n) (u ∷ us) = omega (
    arith,
    count-take-drop n us,
    count-append (get_user_connections_filtered m u t) (users_connections m t (take n us)),
    count-append (get_user_connections_filtered m u t) (users_connections m t us),
  )

  -- The batches together.
  abbrev pub batches_count : List (List Str) → ℕ
  batches_count [] = 0
  batches_count (b ∷ bs) = count p (users_connections m t b) + batches_count bs

  length-drop-le : (n : ℕ) (us : List Str) → length (drop n us) ≤ length us
  length-drop-le zero us = omega arith
  length-drop-le (suc n) [] = omega arith
  length-drop-le (suc n) (u ∷ us) = omega (arith, length-drop-le n us)

  -- With as much fuel as there are users, no user is left out.
  pub batches_count-chunks :
      (fuel : ℕ) (us : List Str)
      → length us ≤ fuel
      → batches_count (chunks fuel 100 us) ≡ count p (users_connections m t us)
  unfolding chunks
  batches_count-chunks zero [] h = refl
  batches_count-chunks zero (u ∷ us) h = absurd (omega arith)
  batches_count-chunks (suc fuel) [] h = refl
  batches_count-chunks (suc fuel) (u ∷ us) h = omega (
    arith,
    count-take-drop 100 (u ∷ us),
    batches_count-chunks fuel (drop 100 (u ∷ us)) (omega (arith, length-drop-le 99 us)),
  )
