-- ===== src/Http/Batch.antt =====
-- The batch of src/domain/notification/triggers/http/batch.rs.
use ara_notification_service.Common.{
  ℕ, zero, suc, ◌+◌, ◌-◌, Bool, true, false, ltb, if◌then◌else◌, Option, none, some, List, [], ◌∷◌,
  ◌++◌, length, is_empty, contains, Str, str_key, Result, ok, err, codes, to_string,
}
use ara_notification_service.Tenant.Context.{TenantContext}
use ara_notification_service.Dispatcher.Model.{Dispatcher, DeliveryResult}
use ara_notification_service.Dispatcher.Handlers.{dispatch_for_tenant}
use ara_notification_service.Http.Errors.{AppError, validation, error_display}
use ara_notification_service.Http.Content.{ResolvedContent, resolve_for_tenant, event_of}
use ara_notification_service.Http.Handlers.{AppState, Moment, tenant_of}
use ara_notification_service.Http.BatchTypes.{
  BatchItemResult, BatchNotificationItem, BatchOptions, BatchSendRequest, BatchSendResponse,
  Progress, dedup_key, into_notification_target, max_batch_size,
}

-- An item that is not dispatched. `Uuid::nil` is 0.
abbrev pub undispatched : ℕ → Bool → Option Str → Option Bool → BatchItemResult
undispatched index success error skipped = record {
  index = index;
  notification_id = 0;
  delivered_to = 0;
  failed = 0;
  success = success;
  error = error;
  skipped = skipped;
}

abbrev pub unresolved : ℕ → AppError → Progress → Progress
unresolved index e p = record p {
  results = p.results ++ undispatched index false (some (error_display e)) none ∷ [];
  failed = p.failed + 1;
}

abbrev pub duplicate : ℕ → Progress → Progress
duplicate index p = record p {
  results = p.results ++ undispatched index true none (some true) ∷ [];
  skipped = p.skipped + 1;
}

-- The remaining items, from the first index and by their number.
unfoldable pub skip_remaining : ℕ → ℕ → Progress → Progress
skip_remaining index zero p = p
skip_remaining index (suc n) p = skip_remaining (index + 1) n (record p {
  results =
      p.results
      ++ undispatched index false (some (codes "Skipped due to stop_on_error")) (some true) ∷ [];
  skipped = p.skipped + 1;
})

-- The result of a dispatch.
abbrev pub pushed : ℕ → Dispatcher → DeliveryResult → Progress → Progress
pushed index d r p = record p {
  dispatcher = d;
  total_delivered = p.total_delivered + r.delivered_to;
  results =
      p.results
      ++ record {
        index = index;
        notification_id = r.notification_id;
        delivered_to = r.delivered_to;
        failed = r.failed;
        success = r.success;
        error = none;
        skipped = none;
      }
        ∷ [];
}

abbrev pub lost : ℕ → Dispatcher → DeliveryResult → Progress → Progress
lost index d r p = record (pushed index d r p) { failed = p.failed + 1 }

-- What follows a dispatch, and whether the loop goes on.
unfoldable pub dispatched : ℕ → ℕ → Bool → Dispatcher × DeliveryResult → Progress → Progress × Bool
unfolding skip_remaining
dispatched total index stop_on_error (d, r) p =
    if r.success
    then (record (pushed index d r p) { succeeded = p.succeeded + 1 }, true)
    else if stop_on_error
    then (skip_remaining (index + 1) (total - (index + 1)) (lost index d r p), false)
    else (lost index d r p, true)

-- The dispatch of an item whose content is resolved, at its moment.
unfoldable pub dispatch_item :
    (ℕ → Moment)
    → Option TenantContext
    → ℕ
    → Bool
    → ℕ
    → BatchNotificationItem
    → ResolvedContent
    → Progress
    → Progress × Bool
unfolding event_of into_notification_target dispatch_for_tenant dispatched
dispatch_item at t total stop_on_error index item r p =
    let now = at index in
    let event = event_of now.id now.built_at r none item.settings.correlation_id in
    let target = into_notification_target item.target t in
    dispatched total index stop_on_error
      (dispatch_for_tenant now.world p.dispatcher target event (tenant_of t)) p

unfoldable pub item_key : BatchNotificationItem → ResolvedContent → Str
unfolding dedup_key
item_key item r = dedup_key item.target ++ codes ":" ++ r.event_type

-- The key of an item, and whether an item before it has the same.
unfoldable pub checked_item :
    (ℕ → Moment)
    → Option TenantContext
    → ℕ
    → BatchOptions
    → ℕ
    → BatchNotificationItem
    → ResolvedContent
    → Progress
    → Progress × Bool
unfolding item_key contains dispatch_item
checked_item at t total options index item r p =
    let key = item_key item r in
    let seen = record p { seen_keys = key ∷ p.seen_keys } in
    let go_on = dispatch_item at t total options.stop_on_error index item r in
    if options.deduplicate
    then (if contains key p.seen_keys then (duplicate index p, true) else go_on seen)
    else go_on p

-- One round of the loop.
unfoldable pub batch_item :
    (ℕ → Moment)
    → AppState
    → Option TenantContext
    → ℕ
    → BatchOptions
    → ℕ
    → BatchNotificationItem
    → Progress
    → Progress × Bool
unfolding resolve_for_tenant checked_item
batch_item at s t total options index item p =
    let q = item.settings in
    elim (resolve_for_tenant (at index).json_text q.content s.template_store (tenant_of t)
      q.priority q.ttl) [
        | err e ↦ (unresolved index e p, if options.stop_on_error then false else true)
        | ok r ↦ checked_item at t total options index item r p
      ]

unfoldable pub items_loop :
    (ℕ → Moment)
    → AppState
    → Option TenantContext
    → ℕ
    → BatchOptions
    → ℕ
    → List BatchNotificationItem
    → Progress
    → Progress
unfolding batch_item
items_loop at s t total options index [] p = p
items_loop at s t total options index (item ∷ items) p =
    let (p', goes_on) = batch_item at s t total options index item p in
    let rest = items_loop at s t total options (index + 1) items p' in if goes_on then rest else p'

abbrev pub start : Dispatcher → Progress
start d = record {
  dispatcher = d;
  results = [];
  succeeded = 0;
  failed = 0;
  skipped = 0;
  total_delivered = 0;
  seen_keys = [];
}

abbrev pub batch_response : ℕ → ℕ → ℕ → Progress → BatchSendResponse
batch_response batch_id now total p = record {
  batch_id = batch_id;
  results = p.results;
  summary = record {
    total = total;
    succeeded = p.succeeded;
    failed = p.failed;
    skipped = p.skipped;
    total_delivered = p.total_delivered;
  };
  timestamp = now;
}

abbrev pub too_large : ℕ → AppError
too_large total = validation (
    codes "Batch size "
    ++ to_string total
    ++ codes " exceeds maximum of "
    ++ to_string max_batch_size)

abbrev pub empty_batch : AppError
empty_batch = validation (codes "Batch cannot be empty")

-- With the identifier of the batch and the time of the answer.
unfoldable pub batch_send :
    ℕ
    → ℕ
    → (ℕ → Moment)
    → AppState
    → Option TenantContext
    → BatchSendRequest
    → AppState × Result BatchSendResponse AppError
unfolding items_loop
batch_send batch_id now at s t q =
    let total = length q.notifications in
    let p = items_loop at s t total q.options 0 q.notifications (start s.dispatcher) in
    if ltb max_batch_size total
    then (s, err (too_large total))
    else if is_empty q.notifications
    then (s, err empty_batch)
    else (record s { dispatcher = p.dispatcher }, ok (batch_response batch_id now total p))
