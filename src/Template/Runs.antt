-- ===== src/Template/Runs.antt =====
-- The store through any sequence of calls.
use mathlib.Core.Path.{subst}
use ara_notification_service.Common.{
  ℕ, ◌≡◌, refl, sym, inl, inr, Bool, true, false, Bool-cases, Option-cases, if◌then◌else◌, Option,
  none, some, List, [], ◌∷◌, Str, str_key, ◌==◌, ==_iff, get, keys, IsUnique, get-insert,
  get-remove, keys-insert-IsUnique, keys-remove-IsUnique, Result-cases, contains_key, ok,
}
use ara_notification_service.Template.Types.{Template, validate, UpdateTemplateRequest}
use ara_notification_service.Template.Store.{
  TemplateStore, new, get_template, put, create, apply_updates, update, delete,
}

pub data Call : Type 0 where
  creates : Template → Call
  updates : ℕ → Str → UpdateTemplateRequest → Call
  deletes : Str → Call

module _ (unicode_alphanumeric : ℕ → Bool) where
  unfoldable pub step : TemplateStore → Call → TemplateStore
  unfolding create update delete
  step s (creates t) = (create unicode_alphanumeric s t).0
  step s (updates now id u) = (update unicode_alphanumeric now s id u).0
  step s (deletes id) = (delete s id).0

  unfoldable pub run : TemplateStore → List Call → TemplateStore
  unfolding step
  run s [] = s
  run s (c ∷ cs) = run (step s c) cs

  -- A template is valid, and stored under its own identifier.
  abbrev pub EntryOk : Str → Option Template → Type 0
  EntryOk id none = Unit
  EntryOk id (some t) = (t.id ≡ id) × (validate unicode_alphanumeric t ≡ ok tt)

  pub record IsStore (s : TemplateStore) : Type 0 where
    pub keys_unique : IsUnique (keys s.templates)
    pub entries : (id : Str) → EntryOk id (get id s.templates)

  if-none :
      (b : Bool) (i : Str) (o : Option Template) → EntryOk i o → EntryOk i (if b then none else o)
  if-none true i o h = tt
  if-none false i o h = h

  put-IsStore :
      (s : TemplateStore) (id : Str) (t : Template)
      → EntryOk id (some t)
      → IsStore s
      → IsStore (put s id t)
  put-IsStore s id t new v = record {
    keys_unique = keys-insert-IsUnique id t s.templates v.keys_unique;
    entries = λ i.
        subst (EntryOk i) (sym (get-insert i id t s.templates))
          (go i (i == id) (λ e. (==_iff i id).0 e));
  }
    where
      go :
          (i : Str) (b : Bool)
          → (b ≡ true → i ≡ id)
          → EntryOk i (if b then some t else get i s.templates)
      go i true same = subst (λ j. EntryOk j (some t)) (sym (same refl)) new
      go i false same = v.entries i

  create-IsStore :
      (s : TemplateStore) (t : Template) → IsStore s → IsStore (create unicode_alphanumeric s t).0
  unfolding create
  create-IsStore s t v = elim (Result-cases (validate unicode_alphanumeric t)) [
    | inr (e, k) ↦ rw (k, create) v
    | inl (a, k) ↦
        rw (k, create)
          (elim (Bool-cases (contains_key t.id s.templates)) [
            | inl there ↦ rw there v
            | inr free ↦ rw free (put-IsStore s t.id t (refl, k) v)
          ])
  ]

  update-IsStore :
      (now : ℕ) (s : TemplateStore) (id : Str) (u : UpdateTemplateRequest)
      → IsStore s
      → IsStore (update unicode_alphanumeric now s id u).0
  unfolding update
  update-IsStore now s id u v = elim (Option-cases (get id s.templates)) [
    | inl e ↦ rw (e, update, get_template) v
    | inr (t, e) ↦
        let own = (subst (EntryOk id) e (v.entries id)).0 in
        rw (e, update, get_template)
          (elim (Result-cases (validate unicode_alphanumeric (apply_updates now u t))) [
            | inr (f, k) ↦ rw k v
            | inl (a, k) ↦ rw k (put-IsStore s id (apply_updates now u t) (same_id u t own, k) v)
          ])
  ]
    where
      same_id :
          (u : UpdateTemplateRequest) (t : Template) → t.id ≡ id → (apply_updates now u t).id ≡ id
      same_id u t e = unfold apply_updates in e

  delete-IsStore : (s : TemplateStore) (id : Str) → IsStore s → IsStore (delete s id).0
  unfolding delete
  delete-IsStore s id v = elim (Option-cases (get id s.templates)) [
    | inl e ↦ rw (e, delete) v
    | inr (t, e) ↦
        rw (e, delete)
          (record {
            keys_unique = keys-remove-IsUnique id s.templates v.keys_unique;
            entries = λ i.
                subst (EntryOk i) (sym (get-remove i id s.templates))
                  (if-none (i == id) i (get i s.templates) (v.entries i));
          })
  ]

  step-IsStore : (s : TemplateStore) (c : Call) → IsStore s → IsStore (step s c)
  unfolding step
  step-IsStore s (creates t) v = create-IsStore s t v
  step-IsStore s (updates now id u) v = update-IsStore now s id u v
  step-IsStore s (deletes id) v = delete-IsStore s id v

  -- Through any calls, every stored template is valid, stands under its own identifier, and no
  -- identifier stands twice.
  pub template_run-IsStore : (cs : List Call) (s : TemplateStore) → IsStore s → IsStore (run s cs)
  unfolding run
  template_run-IsStore [] s v = v
  template_run-IsStore (c ∷ cs) s v = template_run-IsStore cs (step s c) (step-IsStore s c v)
