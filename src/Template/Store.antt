-- ===== src/Template/Store.antt =====
-- The store of src/domain/template/store.rs.
use ara_notification_service.Common.{
  ℕ, Bool, if◌then◌else◌, Option, none, some, List, [], length, HashMap, values, get, insert,
  remove, contains_key, Str, str_key, Result, ok, err, ◌>>=◌,
}
use ara_notification_service.Notification.Json.{Value}
use ara_notification_service.Template.Types.{
  Template, TemplateError, not_found, already_exists, validate, UpdateTemplateRequest,
  RenderedTemplate,
}
use ara_notification_service.Template.Substitution.{substitute_variables}

pub record TemplateStore : Type 0 where
  pub templates : HashMap Str Template

unfoldable pub new : TemplateStore
new = record { templates = [] }

unfoldable pub get_template : TemplateStore → Str → Result Template TemplateError
get_template s id = elim (get id s.templates) [ none ↦ err (not_found id) | some t ↦ ok t ]

abbrev pub list : TemplateStore → List Template
list s = values s.templates

abbrev pub put : TemplateStore → Str → Template → TemplateStore
put s id t = record s { templates = insert id t s.templates }

-- A setting of a request in place of the old one, if it is given.
abbrev pub or_keep {ℓ} : {A : Type ℓ} → Option A → A → A
or_keep none old = old
or_keep (some new_one) old = new_one

-- What `update` writes over the template that it found, at time `now`.
unfoldable pub apply_updates : ℕ → UpdateTemplateRequest → Template → Template
apply_updates now updates t = record t {
  name = or_keep updates.name t.name;
  event_type = or_keep updates.event_type t.event_type;
  payload_template = or_keep updates.payload_template t.payload_template;
  default_priority = or_keep updates.default_priority t.default_priority;
  default_ttl = or_keep updates.default_ttl t.default_ttl;
  description = or_keep updates.description t.description;
  updated_at = now;
}

unfoldable pub delete : TemplateStore → Str → TemplateStore × Result (Unit {0}) TemplateError
delete s id = elim (get id s.templates) [
  | none ↦ (s, err (not_found id))
  | some t ↦ (record s { templates = remove id s.templates }, ok tt)
]

abbrev pub exists : TemplateStore → Str → Bool
exists s id = contains_key id s.templates

abbrev pub count : TemplateStore → ℕ
count s = length s.templates

module _ (unicode_alphanumeric : ℕ → Bool) where
  unfoldable pub create : TemplateStore → Template → TemplateStore × Result Template TemplateError
  unfolding validate get_template
  create s t = elim (validate unicode_alphanumeric t) [
    | err e ↦ (s, err e)
    | ok _ ↦
        if contains_key t.id s.templates
        then (s, err (already_exists t.id))
        else (put s t.id t, get_template (put s t.id t) t.id)
  ]

  abbrev pub updated :
      TemplateStore
      → Str
      → Template
      → Result (Unit {0}) TemplateError
      → TemplateStore × Result Template TemplateError
  updated s id t (err e) = (s, err e)
  updated s id t (ok _) = (put s id t, ok t)

  unfoldable pub update :
      ℕ
      → TemplateStore
      → Str
      → UpdateTemplateRequest
      → TemplateStore × Result Template TemplateError
  unfolding get_template apply_updates validate
  update now s id updates = elim (get_template s id) [
    | err e ↦ (s, err e)
    | ok t ↦
        let t' = apply_updates now updates t in updated s id t' (validate unicode_alphanumeric t')
  ]

unfoldable pub render :
    (Value → Str) → TemplateStore → Str → Value → Result RenderedTemplate TemplateError
unfolding get_template substitute_variables
render json_text s id variables = get_template s id >>= λ t.
    substitute_variables json_text t.payload_template variables >>= λ payload. ok (record {
      event_type = t.event_type;
      payload = payload;
      priority = t.default_priority;
      ttl = t.default_ttl;
    })
