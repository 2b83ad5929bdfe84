-- ===== src/Template/Rendering.antt =====
-- What the substitution of all variables makes of a text, and when rendering fails.
use ara_notification_service.Common.{
  ◌≡◌, ◌≢◌, ◌⊎◌, refl, sym, ◌∙◌, ap, inl, inr, arith, Bool-cases, if◌then◌else◌, Option, none, some,
  List, [], ◌∷◌, Str, str_key, ◌==◌, ok, err, codes, get, Option-cases,
}
use ara_notification_service.Notification.Json.{
  Value, null, boolean, number, string, array, object, Items, nil, cons, Fields, end, field,
}
use ara_notification_service.Template.Types.{Template, not_found, substitution_failed}
use ara_notification_service.Template.Substitution.{
  replace, replacement_of, substitute_string, substitute_value, substitute_items, substitute_fields,
  substitute_variables, insert_field,
}
use ara_notification_service.Template.Store.{TemplateStore, get_template, render}
use ara_notification_service.Template.Segments.{
  Segment, literal, placeholder, print, NoOpen, IsKey, SegmentsOk, fill_one, fill, replace_print,
  fill-SegmentsOk,
}

-- The value of a variable.
abbrev pub lookup : Str → Fields → Option Value
lookup k end = none
lookup k (field key v rest) = if key == k then some v else lookup k rest

module _ (json_text : Value → Str) where
  -- No key of the variables has a brace, and none of their texts a `{`.
  abbrev pub VariablesOk : Fields → Type 0
  VariablesOk end = Unit
  VariablesOk (field key v rest) =
      IsKey key × NoOpen (replacement_of json_text v) × VariablesOk rest

  abbrev pub resolve_found : Str → Option Value → Segment
  resolve_found key none = placeholder key
  resolve_found key (some v) = literal (replacement_of json_text v)

  -- A placeholder with the value of its variable, or as it is if there is none.
  abbrev pub resolve : Fields → Segment → Segment
  resolve vars (literal s) = literal s
  resolve vars (placeholder key) = resolve_found key (lookup key vars)

  abbrev pub resolve_all : Fields → List Segment → List Segment
  resolve_all vars [] = []
  resolve_all vars (x ∷ xs) = resolve vars x ∷ resolve_all vars xs

  resolve_one :
      (key : Str) (v : Value) (rest : Fields) (x : Segment)
      → resolve rest (fill_one key (replacement_of json_text v) x) ≡ resolve (field key v rest) x
  resolve_one key v rest (literal s) = refl
  resolve_one key v rest (placeholder k) = elim (Bool-cases (key == k)) [
    | inl e ↦ rw e refl
    | inr e ↦ rw e refl
  ]

  resolve_fill :
      (key : Str) (v : Value) (rest : Fields) (xs : List Segment)
      → resolve_all rest (fill key (replacement_of json_text v) xs)
        ≡ resolve_all (field key v rest) xs
  resolve_fill key v rest [] = refl
  resolve_fill key v rest (x ∷ xs) = rw (resolve_one key v rest x, resolve_fill key v rest xs) refl

  resolve_end : (xs : List Segment) → resolve_all end xs ≡ xs
  resolve_end [] = refl
  resolve_end (literal s ∷ xs) = ap (λ l. literal s ∷ l) (resolve_end xs)
  resolve_end (placeholder k ∷ xs) = ap (λ l. placeholder k ∷ l) (resolve_end xs)

  -- Substitution puts the value of every variable into each of its placeholders, leaves a placeholder
  -- without a variable as it is, and changes nothing else. This is for a text of literal parts without
  -- `{` and placeholders whose keys have no brace, and for variables whose keys have no brace and whose
  -- texts have no `{`.
  pub substitute_string-print :
      (vars : Fields) (xs : List Segment)
      → VariablesOk vars
      → SegmentsOk xs
      → substitute_string json_text (print xs) vars ≡ print (resolve_all vars xs)
  unfolding substitute_string replace
  substitute_string-print end xs v h = sym (ap print (resolve_end xs))
  substitute_string-print (field key value rest) xs (k, n, v) h =
      let text = replacement_of json_text value in
      ap (λ s. substitute_string json_text s rest) (replace_print key text k xs h)
      ∙ substitute_string-print rest (fill key text xs) v (fill-SegmentsOk key text xs n h)
      ∙ ap print (resolve_fill key value rest xs)

  mutual
    unfolding substitute_value

    substitute_value-ok :
        (v : Value) (vars : Fields) → (w : Value) × (substitute_value json_text v vars ≡ ok w)
    substitute_value-ok null vars = (null, refl)
    substitute_value-ok (boolean b) vars = (boolean b, refl)
    substitute_value-ok (number n) vars = (number n, refl)
    substitute_value-ok (string s) vars = (string (substitute_string json_text s vars), refl)
    substitute_value-ok (array items) vars =
        let (l, e) = substitute_items-ok items vars in (array l, rw e refl)
    substitute_value-ok (object fields) vars =
        let (l, e) = substitute_fields-ok fields vars end in (object l, rw e refl)

    substitute_items-ok :
        (items : Items) (vars : Fields)
        → (w : Items) × (substitute_items json_text items vars ≡ ok w)
    substitute_items-ok nil vars = (nil, refl)
    substitute_items-ok (cons v items) vars =
        let (w, e) = substitute_value-ok v vars in
        let (l, k) = substitute_items-ok items vars in (cons w l, rw (e, k) refl)

    substitute_fields-ok :
        (fields vars rendered : Fields)
        → (w : Fields) × (substitute_fields json_text fields vars rendered ≡ ok w)
    substitute_fields-ok end vars rendered = (rendered, refl)
    substitute_fields-ok (field key v rest) vars rendered =
        let (w, e) = substitute_value-ok v vars in
        let (l, k) =
          substitute_fields-ok rest vars
            (insert_field (substitute_string json_text key vars) w rendered) in
        (l, rw (e, k) refl)

  -- The three ways in which rendering ends: the template is unknown; or the variables are an object,
  -- and the result has the substituted payload beside the template's event type, priority and TTL; or
  -- they are no object, and rendering fails.
  abbrev pub RenderOutcome : TemplateStore → Str → Value → Type 0
  RenderOutcome s id variables =
      let out = render json_text s id variables in
      ((get id s.templates ≡ none) × (out ≡ err (not_found id)))
      ⊎ ((t : Template) × (get id s.templates ≡ some t)
          × (((fields : Fields) × (payload : Value) × (variables ≡ object fields)
                × (substitute_value json_text t.payload_template fields ≡ ok payload)
                × (out
                    ≡ ok (record {
                      event_type = t.event_type;
                      payload = payload;
                      priority = t.default_priority;
                      ttl = t.default_ttl;
                    })))
              ⊎ (((fields : Fields) → variables ≢ object fields)
                  × (out ≡ err (substitution_failed (codes "Variables must be an object"))))))

  render_found :
      (s : TemplateStore) (id : Str) (variables : Value) (t : Template)
      → get id s.templates ≡ some t
      → RenderOutcome s id variables
  unfolding render get_template substitute_variables
  render_found s id (object fields) t found =
      let (payload, e) = substitute_value-ok t.payload_template fields in
      inr (t, found, inl (fields, payload, refl, e, rw (found, render, get_template, e) refl))
  render_found s id null t found =
      inr (t, found, inr (λ fields e. absurd (ground arith), rw (found, render, get_template) refl))
  render_found s id (boolean b) t found =
      inr (t, found, inr (λ fields e. absurd (ground arith), rw (found, render, get_template) refl))
  render_found s id (number n) t found =
      inr (t, found, inr (λ fields e. absurd (ground arith), rw (found, render, get_template) refl))
  render_found s id (string n) t found =
      inr (t, found, inr (λ fields e. absurd (ground arith), rw (found, render, get_template) refl))
  render_found s id (array n) t found =
      inr (t, found, inr (λ fields e. absurd (ground arith), rw (found, render, get_template) refl))

  -- Rendering ends in one of the three ways of `RenderOutcome`: a template that is stored is rendered
  -- with any object of variables, and fails with anything else.
  pub render_lem : (s : TemplateStore) (id : Str) (variables : Value) → RenderOutcome s id variables
  unfolding render get_template
  render_lem s id variables = elim (Option-cases (get id s.templates)) [
    | inl e ↦ inl (e, rw (e, render, get_template) refl)
    | inr (t, e) ↦ render_found s id variables t e
  ]
