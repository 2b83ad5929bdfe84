-- ===== src/Tenant/Isolation.antt =====
-- What the prefix of the tenant separates.
use ara_notification_service.Common.{
  ◌≡◌, refl, sym, ◌∙◌, ap, arith, inl, inr, true, false, Bool-cases, if◌then◌else◌, none, some, [],
  ◌∷◌, ◌++◌, Str, nat_key, str_key, ◌==◌, ==_iff, contains, contains-append,
}
use ara_notification_service.Tenant.Context.{
  default_tenant_id, colon, new, join, namespace_channel, strip_prefix, extract_channel_name,
  tenant_scoped_key,
}

-- No `:` in the text.
abbrev pub IsPlain : Str → Type 0
IsPlain s = contains colon s ≡ false

contains-join : (a b : Str) → contains colon (join a b) ≡ true
unfolding contains
contains-join a b = ground (arith, contains-append colon a (colon ∷ b))

join-injective : (s t c d : Str) → IsPlain c → IsPlain d → join s c ≡ join t d → (s ≡ t) × (c ≡ d)
unfolding contains
join-injective [] [] c d pc pd e = ground arith
join-injective [] (y ∷ t) c d pc pd e = ground (arith, contains-join t d)
join-injective (x ∷ s) [] c d pc pd e = ground (arith, contains-join s c)
join-injective (x ∷ s) (y ∷ t) c d pc pd e = ground (arith, join-injective s t c d pc pd)

-- Two tenants, whatever their names, never share a channel: the internal names of plain channel names
-- (without `:`, the only ones a client may subscribe to) agree only if tenant and channel do.
pub namespace_channel-injective :
    (s t c d : Str)
    → IsPlain c
    → IsPlain d
    → namespace_channel (new s) c ≡ namespace_channel (new t) d
    → (s ≡ t) × (c ≡ d)
unfolding namespace_channel new
namespace_channel-injective s t c d pc pd e =
    ground (arith, join-injective s t c d pc pd, contains-join s c, contains-join t d)

-- Users without `:` in their names have the same key of the message queue only if they are the same
-- user of the same tenant; the tenants may have any names.
pub tenant_scoped_key-injective :
    (s t u v : Str)
    → IsPlain u
    → IsPlain v
    → tenant_scoped_key s u ≡ tenant_scoped_key t v
    → (s ≡ t) × (u ≡ v)
unfolding tenant_scoped_key
tenant_scoped_key-injective s t u v pu pv e =
    ground (arith, join-injective s t u v pu pv, contains-join s u, contains-join t v)

strip_prefix-join : (s c : Str) → strip_prefix (s ++ colon ∷ []) (join s c) ≡ some c
unfolding strip_prefix
strip_prefix-join [] c = ground arith
strip_prefix-join (a ∷ s) c = ground (arith, strip_prefix-join s c)

strip_prefix-other :
    (s t c : Str)
    → IsPlain s
    → IsPlain t
    → (s == t) ≡ false
    → strip_prefix (s ++ colon ∷ []) (join t c) ≡ none
unfolding strip_prefix contains
strip_prefix-other [] [] c ps pt n = ground arith
strip_prefix-other [] (y ∷ t) c ps pt n = ground arith
strip_prefix-other (x ∷ s) [] c ps pt n = ground arith
strip_prefix-other (x ∷ s) (y ∷ t) c ps pt n = ground (arith, strip_prefix-other s t c)

strip_prefix-plain : (s c : Str) → IsPlain c → strip_prefix (s ++ colon ∷ []) c ≡ none
unfolding strip_prefix contains
strip_prefix-plain [] [] p = refl
strip_prefix-plain [] (x ∷ c) p = ground arith
strip_prefix-plain (a ∷ s) [] p = refl
strip_prefix-plain (a ∷ s) (x ∷ c) p = ground (arith, strip_prefix-plain s c)

extract-own :
    (t c : Str) → IsPlain c → extract_channel_name (new t) (namespace_channel (new t) c) ≡ some c
unfolding extract_channel_name namespace_channel new
extract-own t c pc = ground (arith, strip_prefix-join t c)

extract-other :
    (s t c : Str)
    → IsPlain s
    → IsPlain t
    → IsPlain c
    → (s == t) ≡ false
    → extract_channel_name (new s) (namespace_channel (new t) c) ≡ none
unfolding extract_channel_name namespace_channel new
extract-other s t c ps pt pc n = elim (Bool-cases (s == default_tenant_id)) [
  | inl d ↦
      rw d (ground (arith, contains-join t c, other_default ((==_iff s default_tenant_id).0 d)))
  | inr d ↦ rw d (ground (arith, strip_prefix-other s t c ps pt, strip_prefix-plain s c pc))
]
  where
    other_default : s ≡ default_tenant_id → (t == default_tenant_id) ≡ false
    other_default e = elim (Bool-cases (t == default_tenant_id)) [
      | inl d ↦ ground (arith, e ∙ sym ((==_iff t default_tenant_id).0 d))
      | inr d ↦ d
    ]

-- A tenant gets back the name of its own channel and nothing of another tenant's, for tenants and
-- channels without `:` in their names.
pub extract_channel_name-namespace_channel :
    (s t c : Str)
    → IsPlain s
    → IsPlain t
    → IsPlain c
    → extract_channel_name (new s) (namespace_channel (new t) c) ≡ (if s == t then some c else none)
extract_channel_name-namespace_channel s t c ps pt pc = elim (Bool-cases (s == t)) [
  | inl h ↦ rw h (
      ap (λ x. extract_channel_name (new x) (namespace_channel (new t) c)) ((==_iff s t).0 h)
      ∙ extract-own t c pc)
  | inr h ↦ rw h (extract-other s t c ps pt pc h)
]
