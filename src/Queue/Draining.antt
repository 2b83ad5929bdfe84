-- ===== src/Queue/Draining.antt =====
-- What the loops over a user's messages compute.
use ara_notification_service.Common.{
  ℕ, ◌+◌, ◌≡◌, arith, Bool, not, List, [], ◌∷◌, ◌++◌, length, retain, count, count-not,
  length-retain,
}
use mathlib.Core.List.{append-nil, append_assoc}
use ara_notification_service.Queue.Core.{drain_loop}

module _ {M : Type 0} (expired : M → Bool) where
  -- The messages that are not expired, in their order.
  abbrev pub live : List M → List M
  live = retain (λ x. not (expired x))

  pub drain_loop_lem :
      (xs valid : List M) (n : ℕ)
      → drain_loop expired xs valid n ≡ (valid ++ live xs, n + count expired xs)
  unfolding drain_loop retain
  drain_loop_lem [] valid n = ground (arith, append-nil valid)
  drain_loop_lem (x ∷ xs) valid n = ground (
    arith,
    drain_loop_lem xs valid (n + 1),
    drain_loop_lem xs (valid ++ x ∷ []) n,
    append_assoc valid (x ∷ []) (live xs),
  )

  pub length-live : (xs : List M) → count expired xs + length (live xs) ≡ length xs
  length-live xs = omega (arith, count-not expired xs, length-retain (λ x. not (expired x)) xs)
