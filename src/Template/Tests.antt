-- ===== src/Template/Tests.antt =====
-- Runs of the templates, and the theorems at concrete inputs.
use ara_notification_service.Common.{
  ◌≡◌, refl, false, none, List, [], ◌∷◌, Str, str_key, nat_key, get, insert, Str-discrete,
  ℕ_discrete, contains, ok, codes,
}
use ara_notification_service.Notification.Types.{normal}
use ara_notification_service.Notification.Json.{Value, string, number, object, Fields, end, field}
use ara_notification_service.Template.Types.{Template}
use ara_notification_service.Template.Substitution.{substitute_string, replacement_of}
use ara_notification_service.Template.Store.{new, create}
use ara_notification_service.Template.Segments.{Segment, literal, placeholder, print}
use ara_notification_service.Template.Rendering.{
  RenderOutcome, resolve_all, substitute_string-print, render_lem,
}
use ara_notification_service.Template.Runs.{creates, deletes, run, IsStore, template_run-IsStore}

abbrev json_text : Value → Str
json_text v = codes "null"

abbrev greeting : Template
greeting = record {
  id = codes "hi";
  name = codes "n";
  event_type = codes "e";
  payload_template = string (codes "Hi {{name}}");
  default_priority = normal;
  default_ttl = none;
  description = none;
  created_at = 1;
  updated_at = 1;
}

abbrev variables : Fields
variables = field (codes "name") (string (codes "Bo")) (field (codes "n") (number (codes "7")) end)

abbrev segments : List Segment
segments =
    literal (codes "Hi ")
    ∷ placeholder (codes "name")
    ∷ literal (codes "!}")
    ∷ placeholder (codes "x")
    ∷ []

substituted :
    substitute_string json_text (codes "Hi {{name}}, {{{n}} {{x}}") variables
    ≡ codes "Hi Bo, {7 {{x}}"
unfolding substitute_string ℕ_discrete
substituted = refl

-- A value that names a later variable is substituted again.
expanded_again :
    substitute_string json_text
      (codes "{{a}}")
      (field (codes "a") (string (codes "{{b}}")) (field (codes "b") (string (codes "c")) end))
    ≡ codes "c"
unfolding substitute_string ℕ_discrete
expanded_again = refl

created : (create (λ c. false) new greeting).1 ≡ ok greeting
unfolding create new get insert ℕ_discrete Str-discrete
created = refl

substitute_string-print_example :
    substitute_string json_text (print segments) variables
    ≡ print (resolve_all json_text variables segments)
unfolding contains ℕ_discrete replacement_of
substitute_string-print_example =
    substitute_string-print json_text variables segments
      ((refl, refl), refl, ((refl, refl), refl, tt))
      (refl, ((refl, refl), (refl, ((refl, refl), tt))))

render_lem_example :
    RenderOutcome json_text
      (record { templates = (codes "hi", greeting) ∷ [] })
      (codes "hi")
      (object variables)
render_lem_example =
    render_lem json_text (record { templates = (codes "hi", greeting) ∷ [] }) (codes "hi")
      (object variables)

template_run-IsStore_example :
    IsStore (λ c. false) (run (λ c. false) new (creates greeting ∷ deletes (codes "hi") ∷ []))
unfolding new get
template_run-IsStore_example =
    template_run-IsStore (λ c. false) (creates greeting ∷ deletes (codes "hi") ∷ []) new
      (record { keys_unique = tt; entries = λ i. tt })
