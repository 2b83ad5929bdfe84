-- ===== src/Http/Content.antt =====
-- `NotificationContent` of src/domain/notification/triggers/http/content.rs, and the events that the
-- HTTP interface builds.
use ara_notification_service.Common.{
  ℕ, Option, none, some, Str, ◌++◌, Result, ok, err, ◌>>=◌, codes,
}
use ara_notification_service.Notification.Types.{
  Priority, normal, Audience, NotificationEvent, NotificationBuilder, builder, set_payload,
  set_priority, set_ttl, set_audience, set_correlation_id, build,
}
use ara_notification_service.Notification.Json.{Value}
use ara_notification_service.Tenant.Context.{default_tenant_id, tenant_scoped_key}
use ara_notification_service.Template.Types.{
  Template, TemplateError, not_found, already_exists, invalid_id, invalid_template,
  substitution_failed,
}
use ara_notification_service.Template.Substitution.{substitute_variables}
use ara_notification_service.Template.Store.{TemplateStore, get_template}
use ara_notification_service.Http.Errors.{AppError, validation}

pub data NotificationContent : Type 0 where
  template : Str → Value → NotificationContent
  direct : Str → Value → NotificationContent

pub record ResolvedContent : Type 0 where
  pub event_type : Str
  pub payload : Value
  pub priority : Priority
  pub ttl : Option ℕ

-- The texts of the errors of the store.
unfoldable pub template_error_text : TemplateError → Str
template_error_text (not_found e) = codes "Template not found: " ++ e
template_error_text (already_exists e) = codes "Template already exists: " ++ e
template_error_text (invalid_id e) = codes "Invalid template ID: " ++ e
template_error_text (invalid_template e) = codes "Invalid template: " ++ e
template_error_text (substitution_failed e) = codes "Variable substitution failed: " ++ e

-- `result.map_err(|e| AppError::Validation(e.to_string()))`.
abbrev pub as_validation : {A : Type 0} → Result A TemplateError → Result A AppError
as_validation (ok a) = ok a
as_validation (err e) = err (validation (template_error_text e))

abbrev pub unwrap_or {ℓ} : {A : Type ℓ} → Option A → A → A
unwrap_or none a = a
unwrap_or (some b) a = b

-- `a.or(b)`.
abbrev pub or_else {ℓ} : {A : Type ℓ} → Option A → Option A → Option A
or_else none b = b
or_else (some a) b = some a

abbrev pub resolved : Template → Value → Option Priority → Option ℕ → ResolvedContent
resolved t payload priority ttl = record {
  event_type = t.event_type;
  payload = payload;
  priority = unwrap_or priority t.default_priority;
  ttl = or_else ttl t.default_ttl;
}

unfoldable pub resolve_for_tenant :
    (Value → Str)
    → NotificationContent
    → TemplateStore
    → Option Str
    → Option Priority
    → Option ℕ
    → Result ResolvedContent AppError
unfolding tenant_scoped_key get_template substitute_variables template_error_text
resolve_for_tenant json_text (template template_id variables) store tenant_id priority ttl =
    let scoped_id = tenant_scoped_key (unwrap_or tenant_id default_tenant_id) template_id in
    as_validation (get_template store scoped_id) >>= λ t.
    as_validation (substitute_variables json_text t.payload_template variables) >>= λ payload.
    ok (resolved t payload priority ttl)
resolve_for_tenant json_text (direct event_type payload) store tenant_id priority ttl = ok (record {
  event_type = event_type;
  payload = payload;
  priority = unwrap_or priority normal;
  ttl = ttl;
})

unfoldable pub resolve :
    (Value → Str)
    → NotificationContent
    → TemplateStore
    → Option Priority
    → Option ℕ
    → Result ResolvedContent AppError
unfolding resolve_for_tenant
resolve json_text content store priority ttl =
    resolve_for_tenant json_text content store none priority ttl

abbrev pub source : Str
source = codes "http-api"

-- A setter for a value that may be missing.
abbrev optionally :
    {A : Type 0}
    → (NotificationBuilder → A → NotificationBuilder)
    → Option A
    → NotificationBuilder
    → NotificationBuilder
optionally set none b = b
optionally set (some a) b = set b a

-- The event of a request, with the identifier that `Uuid::new_v4` drew and the time.
unfoldable pub event_of : ℕ → ℕ → ResolvedContent → Option Audience → Option Str → NotificationEvent
unfolding builder set_payload set_priority set_ttl set_audience set_correlation_id build
event_of id now r audience correlation_id =
    let b = set_priority (set_payload (builder r.event_type source) r.payload) r.priority in
    build id now (
      optionally set_correlation_id correlation_id
        (optionally set_audience audience (optionally set_ttl r.ttl b)))
