-- ===== src/Tenant/Context.antt =====
-- `TenantContext` of src/domain/tenant/mod.rs, and `tenant_scoped_key` of
-- src/infrastructure/auth/claims.rs.
use ara_notification_service.Common.{
  ℕ, Bool, if◌then◌else◌, Option, none, some, [], ◌∷◌, ◌++◌, Str, nat_key, str_key, ◌==◌, contains,
}

abbrev pub default_tenant_id : Str
default_tenant_id = b'd' ∷ b'e' ∷ b'f' ∷ b'a' ∷ b'u' ∷ b'l' ∷ b't' ∷ []

abbrev pub colon : ℕ
colon = b':'

pub record TenantContext : Type 0 where
  pub tenant_id : Str
  pub is_default : Bool

unfoldable pub new : Str → TenantContext
new tenant_id = record { tenant_id = tenant_id; is_default = tenant_id == default_tenant_id }

unfoldable pub default_tenant : TenantContext
unfolding new
default_tenant = new default_tenant_id

-- `format!("{}:{}", a, b)`.
abbrev pub join : Str → Str → Str
join a b = a ++ colon ∷ b

unfoldable pub namespace_channel : TenantContext → Str → Str
namespace_channel t channel = if t.is_default then channel else join t.tenant_id channel

-- `text.strip_prefix(prefix)`, with the prefix first.
unfoldable pub strip_prefix : Str → Str → Option Str
strip_prefix [] text = some text
strip_prefix (p ∷ prefix) [] = none
strip_prefix (p ∷ prefix) (x ∷ text) =
    let rest = strip_prefix prefix text in if p == x then rest else none

unfoldable pub extract_channel_name : TenantContext → Str → Option Str
unfolding strip_prefix contains
extract_channel_name t namespaced_channel =
    if t.is_default
    then if contains colon namespaced_channel then none else some namespaced_channel
    else strip_prefix (t.tenant_id ++ colon ∷ []) namespaced_channel

unfoldable pub tenant_scoped_key : Str → Str → Str
tenant_scoped_key tenant_id user_id =
    if tenant_id == default_tenant_id then user_id else join tenant_id user_id
