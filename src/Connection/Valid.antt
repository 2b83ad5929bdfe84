-- ===== src/Connection/Valid.antt =====
-- What holds of a registry between two calls: the indexes file a connection under its user, its
-- tenant and its subscribed channels, and under nothing else.
use mathlib.Core.Path.{subst}
use ara_notification_service.Common.{
  ℕ, ◌≡◌, Bool, true, false, Option, none, some, Str, nat_key, str_key, get, keys, filed, contains,
  IsIndex, IsUnique, ◌==◌, refl, sym, if◌then◌else◌, HashMap, insert, remove, get-insert,
  get-remove, ==_iff,
}
use ara_notification_service.Connection.Types.{ConnectionHandle, ConnectionManager}
use ara_notification_service.Connection.Manager.{new}

-- Is there a connection, and does it belong to the user (tenant, channel)?
abbrev pub of_user : Str → Option ConnectionHandle → Bool
of_user u none = false
of_user u (some h) = u == h.user_id

abbrev pub of_tenant : Str → Option ConnectionHandle → Bool
of_tenant t none = false
of_tenant t (some h) = t == h.tenant_id

abbrev pub of_channel : Str → Option ConnectionHandle → Bool
of_channel c none = false
of_channel c (some h) = contains c h.subscriptions

-- A handle is stored under its own identifier, and has no channel twice.
abbrev pub HandleOk : ℕ → Option ConnectionHandle → Type 0
HandleOk i none = Unit
HandleOk i (some h) = (h.id ≡ i) × IsUnique h.subscriptions

pub record IsValid (m : ConnectionManager) : Type 0 where
  pub ids_unique : IsUnique (keys m.connections)
  pub handles : (i : ℕ) → HandleOk i (get i m.connections)
  pub users : IsIndex m.user_index
  pub tenants : IsIndex m.tenant_index
  pub channels : IsIndex m.channel_index
  pub user_filed : (u : Str) (i : ℕ) → filed m.user_index u i ≡ of_user u (get i m.connections)
  pub tenant_filed :
      (t : Str) (i : ℕ) → filed m.tenant_index t i ≡ of_tenant t (get i m.connections)
  pub channel_filed :
      (c : Str) (i : ℕ) → filed m.channel_index c i ≡ of_channel c (get i m.connections)

if-HandleOk :
    (i : ℕ) (b : Bool) (x y : Option ConnectionHandle)
    → (b ≡ true → HandleOk i x)
    → HandleOk i y
    → HandleOk i (if b then x else y)
if-HandleOk i true x y hx hy = hx refl
if-HandleOk i false x y hx hy = hy

-- What a write at one identifier leaves of the handles.
pub insert-HandleOk :
    (i k : ℕ) (h : ConnectionHandle) (m : HashMap ℕ ConnectionHandle)
    → (i ≡ k → HandleOk i (some h))
    → HandleOk i (get i m)
    → HandleOk i (get i (insert k h m))
insert-HandleOk i k h m new old =
    subst (HandleOk i) (sym (get-insert i k h m))
      (if-HandleOk i (i == k) (some h) (get i m) (λ e. new ((==_iff i k).0 e)) old)

pub remove-HandleOk :
    (i k : ℕ) (m : HashMap ℕ ConnectionHandle)
    → HandleOk i (get i m)
    → HandleOk i (get i (remove k m))
remove-HandleOk i k m old =
    subst (HandleOk i) (sym (get-remove i k m))
      (if-HandleOk i (i == k) none (get i m) (λ e. tt) old)
