-- ===== src/Http/BatchLaws.antt =====
-- What the answer to a batch accounts for.
use mathlib.Core.Path.{subst}
use ara_notification_service.Common.{
  ℕ, ◌+◌, ◌≤◌, ◌<◌, ◌≡◌, ◌⊎◌, refl, inl, inr, arith, true, false, not, ◌&&◌, Bool-cases, ltb, leb,
  Option, List, [], ◌∷◌, length, is_empty, contains, Str, str_key, Result-cases, ok, err,
}
use ara_notification_service.Tenant.Context.{TenantContext}
use ara_notification_service.Http.Errors.{AppError, error_display}
use ara_notification_service.Http.Content.{ResolvedContent, resolve_for_tenant}
use ara_notification_service.Http.Handlers.{AppState, Moment, tenant_of}
use ara_notification_service.Http.Batch.{
  dispatch_item, checked_item, batch_item, items_loop, item_key, start, batch_response, batch_send,
  too_large, empty_batch,
}
use ara_notification_service.Http.BatchTypes.{
  BatchNotificationItem, BatchOptions, BatchSendRequest, Progress, max_batch_size,
}
use ara_notification_service.Http.BatchRounds.{
  Accounts, RoundOutcome, dispatched-Outcome, ends_unresolved, ends_unresolved-push, push-Accounts,
  unresolved-Accounts,
}

module _ (at : ℕ → Moment) (s : AppState) (t : Option TenantContext) (total : ℕ)
    (options : BatchOptions) where
  dispatch_item-Outcome :
      (n : ℕ) (item : BatchNotificationItem) (r : ResolvedContent) (p : Progress)
      → n < total
      → Accounts n p
      → RoundOutcome n total options.stop_on_error
          (dispatch_item at t total options.stop_on_error n item r p)
  unfolding dispatch_item
  dispatch_item-Outcome n item r p lt a =
      dispatched-Outcome n total options.stop_on_error _ _ p lt a

  seen-Accounts :
      (n : ℕ) (key : Str) (p : Progress)
      → Accounts n p
      → Accounts n (record p { seen_keys = key ∷ p.seen_keys })
  seen-Accounts n key p a = record {
    numbered = a.numbered;
    each = a.each;
    counted = a.counted;
    summed = a.summed;
  }

  checked_item-Outcome :
      (n : ℕ) (item : BatchNotificationItem) (r : ResolvedContent) (p : Progress)
      → n < total
      → Accounts n p
      → RoundOutcome n total options.stop_on_error (checked_item at t total options n item r p)
  unfolding checked_item
  checked_item-Outcome n item r p lt a = elim (Bool-cases options.deduplicate) [
    | inr e ↦ rw e (dispatch_item-Outcome n item r p lt a)
    | inl e ↦ elim (Bool-cases (contains (item_key item r) p.seen_keys)) [
      | inl k ↦
          rw (e, k) (inl (refl, push-Accounts n p _ _ a refl refl (omega arith) (omega arith)))
      | inr k ↦
          rw (e, k) (dispatch_item-Outcome n item r _ lt (seen-Accounts n (item_key item r) p a))
    ]
  ]

  batch_item-Outcome :
      (n : ℕ) (item : BatchNotificationItem) (p : Progress)
      → n < total
      → Accounts n p
      → RoundOutcome n total options.stop_on_error (batch_item at s t total options n item p)
  unfolding batch_item
  batch_item-Outcome n item p lt a =
      let q = item.settings in
      elim (Result-cases (
        resolve_for_tenant (at n).json_text q.content s.template_store (tenant_of t) q.priority
          q.ttl)) [
            | inl (r, e) ↦ rw (e, batch_item) (checked_item-Outcome n item r p lt a)
            | inr (f, e) ↦
                let more = unresolved-Accounts n f p a in
                elim (Bool-cases options.stop_on_error) [
                  | inl k ↦
                      rw (e, batch_item, k)
                        (inr (
                          refl,
                          refl,
                          inr (more, ends_unresolved-push p.results n (error_display f)),
                        ))
                  | inr k ↦ rw (e, batch_item, k) (inl (refl, more))
                ]
          ]

  -- How the loop ends.
  abbrev pub LoopOutcome : Progress → Type 0
  LoopOutcome p =
      Accounts total p
      ⊎ ((options.stop_on_error ≡ true)
          × (ends_unresolved p.results ≡ true)
          × ((k : ℕ) × (k ≤ total) × Accounts k p))

  items_loop-Outcome :
      (n : ℕ) (items : List BatchNotificationItem) (p : Progress)
      → n + length items ≡ total
      → Accounts n p
      → LoopOutcome (items_loop at s t total options n items p)
  unfolding items_loop
  items_loop-Outcome n [] p e a = inl (subst (λ j. Accounts j p) (omega (arith, e)) a)
  items_loop-Outcome n (item ∷ items) p e a =
      let round = batch_item at s t total options n item p in
      elim (batch_item-Outcome n item p (omega (arith, e)) a) [
        | inl (on, more) ↦ rw on (items_loop-Outcome (n + 1) items round.0 (omega (arith, e)) more)
        | inr (off, stop, inl all) ↦ rw off (inl all)
        | inr (off, stop, inr (more, last)) ↦
            rw off (inr (stop, last, (n + 1, omega (arith, e), more)))
      ]

is_empty-length {ℓ} : {A : Type ℓ} (xs : List A) → is_empty xs ≡ not (ltb 0 (length xs))
is_empty-length [] = refl
is_empty-length (x ∷ xs) = ground arith

-- The two ways in which a batch is answered: refused for its size, with nothing done; or with a
-- summary. Then every item up to some number has one result, in order, and the counts of the summary
-- add up to it, as the deliveries of the results add up to the total of the summary. That number is
-- the number of all items, unless the batch was to stop at the first error and the last result is
-- that of a content that could not be resolved.
abbrev pub BatchOutcome :
    ℕ → ℕ → (ℕ → Moment) → AppState → Option TenantContext → BatchSendRequest → Type 0
BatchOutcome batch_id now at s t q =
    let out = batch_send batch_id now at s t q in
    let total = length q.notifications in
    (((ltb 0 total && leb total max_batch_size) ≡ false) × ((e : AppError) × (out ≡ (s, err e))))
    ⊎ (((ltb 0 total && leb total max_batch_size) ≡ true)
        × ((p : Progress) × (out
              ≡ (record s { dispatcher = p.dispatcher }, ok (batch_response batch_id now total p)))
            × LoopOutcome at s t total q.options p))

-- Every batch is answered in one of the two ways of `BatchOutcome`.
pub batch_send-Accounts :
    (batch_id now : ℕ) (at : ℕ → Moment) (s : AppState) (t : Option TenantContext)
    (q : BatchSendRequest)
    → BatchOutcome batch_id now at s t q
unfolding batch_send
batch_send-Accounts batch_id now at s t q =
    let total = length q.notifications in
    let p = items_loop at s t total q.options 0 q.notifications (start s.dispatcher) in
    let accounts =
      items_loop-Outcome at s t total q.options 0 q.notifications (start s.dispatcher) (omega arith)
        (record { numbered = tt; each = refl; counted = omega arith; summed = refl }) in
    elim (Bool-cases (ltb max_batch_size total)) [
      | inl big ↦ inl (ground arith, (too_large total, rw big refl))
      | inr fits ↦ elim (Bool-cases (is_empty q.notifications)) [
        | inl e ↦
            inl (ground (arith, is_empty-length q.notifications), (empty_batch, rw (fits, e) refl))
        | inr e ↦
            inr (ground (arith, is_empty-length q.notifications), (p, rw (fits, e) refl, accounts))
      ]
    ]
