-- ===== src/Template/Substitution.antt =====
-- The substitution of src/domain/template/substitution.rs. The JSON text of an array or object is a
-- parameter (the crate serde_json); its maps hold their entries in the order of the keys' bytes.
use ara_notification_service.Common.{
  ℕ, zero, suc, ◌-◌, if◌then◌else◌, is_some, [], ◌∷◌, ◌++◌, length, before, Str, nat_key, str_key,
  ◌==◌, Result, ok, err, ◌>>=◌, codes,
}
use ara_notification_service.Tenant.Context.{strip_prefix}
use ara_notification_service.Notification.Json.{
  Value, null, boolean, number, string, array, object, Items, nil, cons, Fields, end, field,
}
use ara_notification_service.Template.Types.{TemplateError, substitution_failed}

-- `text.replace(pattern, replacement)` for a pattern that is not empty, with the number of bytes to
-- come that a match has taken.
unfoldable pub replace_from : Str → Str → ℕ → Str → Str
unfolding strip_prefix
replace_from pattern replacement skip [] = []
replace_from pattern replacement (suc skip) (x ∷ s) = replace_from pattern replacement skip s
replace_from pattern replacement zero (x ∷ s) =
    let after = replace_from pattern replacement (length pattern - 1) s in
    let next = replace_from pattern replacement 0 s in
    if is_some (strip_prefix pattern (x ∷ s)) then replacement ++ after else x ∷ next

unfoldable pub replace : Str → Str → Str → Str
unfolding replace_from
replace pattern replacement text = replace_from pattern replacement 0 text

-- `format!("{{{{{}}}}}", key)`.
abbrev pub pattern_of : Str → Str
pattern_of key = b'{' ∷ b'{' ∷ (key ++ b'}' ∷ b'}' ∷ [])

-- `map.insert(key, value)`.
unfoldable pub insert_field : Str → Value → Fields → Fields
insert_field key v end = field key v end
insert_field key v (field k w rest) =
    let later = field k w (insert_field key v rest) in
    if key == k
    then field key v rest
    else if before key k
    then field key v (field k w rest)
    else later

module _ (json_text : Value → Str) where
  unfoldable pub replacement_of : Value → Str
  replacement_of (string s) = s
  replacement_of (number n) = n
  replacement_of (boolean b) = if b then codes "true" else codes "false"
  replacement_of null = []
  replacement_of (array items) = json_text (array items)
  replacement_of (object fields) = json_text (object fields)

  unfoldable pub substitute_string : Str → Fields → Str
  unfolding replace replacement_of
  substitute_string result end = result
  substitute_string result (field key value rest) =
      substitute_string (replace (pattern_of key) (replacement_of value) result) rest

  unfoldable mutual
    unfolding insert_field substitute_string

    pub substitute_value : Value → Fields → Result Value TemplateError
    substitute_value (string s) variables = ok (string (substitute_string s variables))
    substitute_value (array items) variables =
        substitute_items items variables >>= λ rendered. ok (array rendered)
    substitute_value (object fields) variables =
        substitute_fields fields variables end >>= λ rendered. ok (object rendered)
    substitute_value (number n) variables = ok (number n)
    substitute_value (boolean b) variables = ok (boolean b)
    substitute_value null variables = ok null

    pub substitute_items : Items → Fields → Result Items TemplateError
    substitute_items nil variables = ok nil
    substitute_items (cons v items) variables = substitute_value v variables >>= λ first.
        substitute_items items variables >>= λ rest. ok (cons first rest)

    -- With the entries rendered so far.
    pub substitute_fields : Fields → Fields → Fields → Result Fields TemplateError
    substitute_fields end variables rendered = ok rendered
    substitute_fields (field key v rest) variables rendered =
        substitute_value v variables >>= λ rendered_val.
        substitute_fields rest variables
          (insert_field (substitute_string key variables) rendered_val rendered)

  unfoldable pub substitute_variables : Value → Value → Result Value TemplateError
  unfolding substitute_value
  substitute_variables template (object vars) = substitute_value template vars
  substitute_variables template _ = err (substitution_failed (codes "Variables must be an object"))
