-- ===== src/Http/BatchRounds.antt =====
-- What one more result, and the skipped rest, account for in a batch.
use mathlib.Core.Path.{subst}
use ara_notification_service.Common.{
  ℕ, zero, suc, ◌+◌, ◌-◌, ◌<◌, ◌≡◌, ◌⊎◌, refl, inl, inr, arith, Bool, true, false, not, ◌&&◌,
  if◌then◌else◌, none, some, is_some, List, [], ◌∷◌, ◌++◌, length, length-append, sum_by, Str,
  str_key,
}
use ara_notification_service.Dispatcher.Model.{Dispatcher, DeliveryResult}
use ara_notification_service.Http.Errors.{AppError}
use ara_notification_service.Http.Batch.{
  undispatched, unresolved, pushed, lost, skip_remaining, dispatched,
}
use ara_notification_service.Http.BatchTypes.{BatchItemResult, Progress}

-- The results carry the indexes from `k` on, in order.
abbrev pub IsNumbered : ℕ → List BatchItemResult → Type 0
IsNumbered k [] = Unit
IsNumbered k (r ∷ rs) = (r.index ≡ k) × IsNumbered (suc k) rs

abbrev pub delivered : BatchItemResult → ℕ
delivered r = r.delivered_to

pub IsNumbered-push :
    (k n : ℕ) (rs : List BatchItemResult) (r : BatchItemResult)
    → IsNumbered k rs
    → r.index ≡ n
    → k + length rs ≡ n
    → IsNumbered k (rs ++ r ∷ [])
IsNumbered-push k n [] r h e m = (omega (arith, e, m), tt)
IsNumbered-push k n (x ∷ rs) r (e, h) i m =
    (e, IsNumbered-push (suc k) n rs r h i (omega (arith, m)))

pub sum_by-push :
    (rs : List BatchItemResult) (r : BatchItemResult)
    → sum_by delivered (rs ++ r ∷ []) ≡ sum_by delivered rs + r.delivered_to
sum_by-push [] r = omega arith
sum_by-push (x ∷ rs) r = omega (arith, sum_by-push rs r)

-- The first `n` items are accounted for: each has one result, in order, the three counters add up to
-- them, and the total is that of the results.
pub record Accounts (n : ℕ) (p : Progress) : Type 0 where
  pub numbered : IsNumbered 0 p.results
  pub each : length p.results ≡ n
  pub counted : p.succeeded + p.failed + p.skipped ≡ n
  pub summed : p.total_delivered ≡ sum_by delivered p.results

-- One more result.
pub push-Accounts :
    (n : ℕ) (p p' : Progress) (r : BatchItemResult)
    → Accounts n p
    → p'.results ≡ p.results ++ r ∷ []
    → r.index ≡ n
    → p'.succeeded + p'.failed + p'.skipped ≡ suc (p.succeeded + p.failed + p.skipped)
    → p'.total_delivered ≡ p.total_delivered + r.delivered_to
    → Accounts (n + 1) p'
push-Accounts n p p' r a e i c t = record {
  numbered = rw e (IsNumbered-push 0 n p.results r a.numbered i (omega (arith, a.each)));
  each = rw e (omega (arith, length-append p.results (r ∷ []), a.each));
  counted = omega (arith, c, a.counted);
  summed = rw e (omega (arith, t, a.summed, sum_by-push p.results r));
}

pub skip_remaining-Accounts :
    (n k total : ℕ) (p : Progress)
    → n + k ≡ total
    → Accounts n p
    → Accounts total (skip_remaining n k p)
unfolding skip_remaining
skip_remaining-Accounts n zero total p e a = subst (λ j. Accounts j p) (omega (arith, e)) a
skip_remaining-Accounts n (suc k) total p e a =
    skip_remaining-Accounts (n + 1) k total _ (omega (arith, e))
      (push-Accounts n p _ _ a refl refl (omega arith) (omega arith))

-- Is the last result that of a content that could not be resolved?
abbrev pub ends_unresolved : List BatchItemResult → Bool
ends_unresolved [] = false
ends_unresolved (r ∷ []) = is_some r.error && not (is_some r.skipped)
ends_unresolved (r ∷ s ∷ rs) = ends_unresolved (s ∷ rs)

pub ends_unresolved-push :
    (rs : List BatchItemResult) (index : ℕ) (e : Str)
    → ends_unresolved (rs ++ undispatched index false (some e) none ∷ []) ≡ true
ends_unresolved-push [] index e = refl
ends_unresolved-push (r ∷ []) index e = refl
ends_unresolved-push (r ∷ s ∷ rs) index e = ends_unresolved-push (s ∷ rs) index e

-- A round ends well: it goes on with one more item accounted for, or it stops, which it does only if
-- that is asked for, with all the items accounted for, or with this one more, which could not be
-- resolved.
abbrev pub RoundOutcome : ℕ → ℕ → Bool → Progress × Bool → Type 0
RoundOutcome n total stop (p, goes_on) =
    ((goes_on ≡ true) × Accounts (n + 1) p)
    ⊎ ((goes_on ≡ false)
        × (stop ≡ true)
        × (Accounts total p ⊎ (Accounts (n + 1) p × (ends_unresolved p.results ≡ true))))

pub lost-Accounts :
    (n : ℕ) (d : Dispatcher) (r : DeliveryResult) (p : Progress)
    → Accounts n p
    → Accounts (n + 1) (lost n d r p)
lost-Accounts n d r p a = push-Accounts n p _ _ a refl refl (omega arith) (omega arith)

pub all_items : (n total : ℕ) → n < total → n + 1 + (total - (n + 1)) ≡ total
all_items n total lt = omega arith

pub dispatched-Outcome :
    (n total : ℕ) (stop : Bool) (d : Dispatcher) (r : DeliveryResult) (p : Progress)
    → n < total
    → Accounts n p
    → RoundOutcome n total stop (dispatched total n stop (d, r) p)
unfolding dispatched
dispatched-Outcome n total stop d r p lt a = go r.success stop
  where
    go :
        (success stop : Bool)
        → RoundOutcome n total stop (
            if success
            then (record (pushed n d r p) { succeeded = p.succeeded + 1 }, true)
            else if stop
            then (skip_remaining (n + 1) (total - (n + 1)) (lost n d r p), false)
            else (lost n d r p, true))
    go true stop = inl (refl, push-Accounts n p _ _ a refl refl (omega arith) (omega arith))
    go false false = inl (refl, lost-Accounts n d r p a)
    go false true = inr (
      refl,
      refl,
      inl (
          skip_remaining-Accounts (n + 1) (total - (n + 1)) total (lost n d r p)
            (all_items n total lt) (lost-Accounts n d r p a)),
    )

pub unresolved-Accounts :
    (n : ℕ) (e : AppError) (p : Progress) → Accounts n p → Accounts (n + 1) (unresolved n e p)
unresolved-Accounts n e p a = push-Accounts n p _ _ a refl refl (omega arith) (omega arith)
