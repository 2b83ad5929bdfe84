-- ===== src/Template/Types.antt =====
-- The data of src/domain/template/types.rs, and `Template::validate`.
use ara_notification_service.Common.{
  ℕ, Bool, ◌||◌, ltb, if◌then◌else◌, Option, Str, nat_key, ◌==◌, length, is_empty, Result, ok, err,
  codes, chars_from, all_chars, is_alphanumeric,
}
use ara_notification_service.Notification.Types.{Priority}
use ara_notification_service.Notification.Json.{Value}

pub data TemplateError : Type 0 where
  not_found : Str → TemplateError
  already_exists : Str → TemplateError
  invalid_id : Str → TemplateError
  invalid_template : Str → TemplateError
  substitution_failed : Str → TemplateError

pub record Template : Type 0 where
  pub id : Str
  pub name : Str
  pub event_type : Str
  pub payload_template : Value
  pub default_priority : Priority
  pub default_ttl : Option ℕ
  pub description : Option Str
  pub created_at : ℕ
  pub updated_at : ℕ

abbrev bad_length : ℕ → Str → Bool
bad_length most s = is_empty s || ltb most (length s)

module _ (unicode_alphanumeric : ℕ → Bool) where
  unfoldable id_char : ℕ → Bool
  id_char c = is_alphanumeric unicode_alphanumeric c || c == b'-' || c == b'_' || c == b':'

  unfoldable pub validate : Template → Result (Unit {0}) TemplateError
  unfolding chars_from id_char
  validate t =
      if bad_length 130 t.id
      then err (invalid_id (codes "ID must be 1-130 characters"))
      else if all_chars id_char (chars_from 0 0 t.id)
      then (if bad_length 256 t.name
          then err (invalid_template (codes "Name must be 1-256 characters"))
          else if bad_length 128 t.event_type
          then err (invalid_template (codes "Event type must be 1-128 characters"))
          else ok tt)
      else err (invalid_id (codes "ID must contain only alphanumeric, dash, underscore, or colon"))

pub record CreateTemplateRequest : Type 0 where
  pub id : Str
  pub name : Str
  pub event_type : Str
  pub payload_template : Value
  pub default_priority : Priority
  pub default_ttl : Option ℕ
  pub description : Option Str

-- `Template::from`, with the time.
unfoldable pub from_request : ℕ → CreateTemplateRequest → Template
from_request now req = record {
  id = req.id;
  name = req.name;
  event_type = req.event_type;
  payload_template = req.payload_template;
  default_priority = req.default_priority;
  default_ttl = req.default_ttl;
  description = req.description;
  created_at = now;
  updated_at = now;
}

pub record UpdateTemplateRequest : Type 0 where
  pub name : Option Str
  pub event_type : Option Str
  pub payload_template : Option Value
  pub default_priority : Option Priority
  pub default_ttl : Option (Option ℕ)
  pub description : Option (Option Str)

pub record RenderedTemplate : Type 0 where
  pub event_type : Str
  pub payload : Value
  pub priority : Priority
  pub ttl : Option ℕ
