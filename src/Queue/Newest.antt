-- ===== src/Queue/Newest.antt =====
-- The last elements of a list, and the bounded push of src/domain/queue (push_bounded in Core).
use ara_notification_service.Common.{
  ℕ, zero, suc, ◌-◌, ◌≤◌, ◌<◌, ◌≡◌, refl, sym, ◌∙◌, ap, inl, inr, max, arith, leb, Bool-cases, List,
  [], ◌∷◌, ◌++◌, length, tail, drop, length-append,
}
use ara_notification_service.Queue.Core.{push_bounded}

module _ {ℓ} {A : Type ℓ} where
  -- The last `n` elements.
  abbrev pub newest : ℕ → List A → List A
  newest n xs = drop (length xs - n) xs

  drop-append : (k : ℕ) (xs ys : List A) → k ≤ length xs → drop k (xs ++ ys) ≡ drop k xs ++ ys
  drop-append zero xs ys h = refl
  drop-append (suc k) [] ys h = absurd (omega arith)
  drop-append (suc k) (x ∷ xs) ys h = drop-append k xs ys (omega arith)

  tail-drop : (k : ℕ) (xs : List A) → tail (drop k xs) ≡ drop (suc k) xs
  tail-drop zero [] = refl
  tail-drop zero (x ∷ xs) = refl
  tail-drop (suc k) [] = refl
  tail-drop (suc k) (x ∷ xs) = tail-drop k xs

  length-drop : (k : ℕ) (xs : List A) → length (drop k xs) ≡ length xs - k
  length-drop zero xs = omega arith
  length-drop (suc k) [] = omega arith
  length-drop (suc k) (x ∷ xs) = omega (arith, length-drop k xs)

  drop_all : (k : ℕ) (xs : List A) → length xs ≤ k → drop k xs ≡ []
  drop_all zero [] h = refl
  drop_all zero (x ∷ xs) h = absurd (omega arith)
  drop_all (suc k) [] h = refl
  drop_all (suc k) (x ∷ xs) h = drop_all k xs (omega arith)

  pub length-newest-le : (n : ℕ) (xs : List A) → length (newest n xs) ≤ n
  length-newest-le n xs = omega (arith, length-drop (length xs - n) xs)

  drop_eq : {j k : ℕ} (xs : List A) → j ≡ k → drop j xs ≡ drop k xs
  drop_eq xs e = rw e

  pub newest_short : (n : ℕ) (xs : List A) → length xs ≤ n → newest n xs ≡ xs
  newest_short n xs h = drop_eq {k = 0} xs (omega arith)

  -- One more element: the oldest goes if there is no room.
  newest_full :
      (n : ℕ) (h : List A) (x : A)
      → 0 < n
      → n ≤ length h
      → newest n (h ++ x ∷ []) ≡ tail (newest n h) ++ x ∷ []
  newest_full n h x pos full =
      drop_eq {k = suc (length h - n)} (h ++ x ∷ []) (omega (arith, length-append h (x ∷ [])))
      ∙ drop-append (suc (length h - n)) h (x ∷ []) (omega arith)
      ∙ ap (λ l. l ++ x ∷ []) (sym (tail-drop (length h - n) h))

  newest_room : (n : ℕ) (h : List A) (x : A) → length h < n → newest n (h ++ x ∷ []) ≡ h ++ x ∷ []
  newest_room n h x room = newest_short n (h ++ x ∷ []) (omega (arith, length-append h (x ∷ [])))

module _ {M : Type 0} where
  push_bounded_room :
      (most : ℕ) (h : List M) (x : M) → length h < max 1 most → push_bounded most h x ≡ h ++ x ∷ []
  unfolding push_bounded
  push_bounded_room most [] x room = ground arith
  push_bounded_room most (y ∷ h) x room = ground arith

  -- Pushing to a queue that holds the newest of a history gives the newest of the longer history. A
  -- bound of 0 works as 1.
  pub push_bounded-newest :
      (most : ℕ) (h : List M) (x : M)
      → push_bounded most (newest (max 1 most) h) x ≡ newest (max 1 most) (h ++ x ∷ [])
  unfolding push_bounded
  push_bounded-newest most h x = elim (Bool-cases (leb (max 1 most) (length h))) [
    | inl e ↦ ground (arith, newest_full (max 1 most) h x, length-drop (length h - max 1 most) h)
    | inr e ↦
        rw (newest_short (max 1 most) h (ground arith), newest_room (max 1 most) h x (ground arith))
          (push_bounded_room most h x (ground arith))
  ]
