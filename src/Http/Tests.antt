-- ===== src/Http/Tests.antt =====
-- Runs of the HTTP interface, and the theorems at concrete inputs.
use ara_notification_service.Common.{
  ℕ, ◌≡◌, refl, arith, true, false, none, some, [], ◌∷◌, Str, str_key, nat_key, ◌==◌, Str-discrete,
  ℕ_discrete, codes,
}
use ara_notification_service.Fixtures.{clock, alice, bob, acme, orders}
use ara_notification_service.Notification.Json.{null}
use ara_notification_service.Connection.Types.{default_limits}
use ara_notification_service.Connection.Manager.{with_limits}
use ara_notification_service.Queue.Models
use ara_notification_service.Queue.MemoryBackend
use ara_notification_service.Ack.Memory
use ara_notification_service.Tenant.Context.{default_tenant_id, join, namespace_channel}
use ara_notification_service.Tenant.Context
use ara_notification_service.Tenant.Manager.{TenantManager, default_config}
use ara_notification_service.Dispatcher.Model.{World, Dispatcher, with_backends}
use ara_notification_service.Http.Auth.{Unicode, constant_time_eq, api_key_auth}
use ara_notification_service.Http.AuthLaws.{
  IsBytes, TenantOk, constant_time_eq-==, api_key_auth-production,
}
use ara_notification_service.Http.Content.{direct, template}
use ara_notification_service.Http.Handlers.{AppState, Moment, namespaced}
use ara_notification_service.Http.BatchTypes.{BatchSendRequest, user, users, dedup_key}
use ara_notification_service.Http.BatchLaws.{BatchOutcome, batch_send-Accounts}

abbrev calm : World
calm = record {
  chrono = clock;
  now = 100;
  takes = λ h. true;
  unordered = λ hs. hs;
  sent_at = λ h. 100;
  fresh_id = λ n. n;
  queued_at = λ n. 100;
}

abbrev dispatcher : Dispatcher
dispatcher =
    with_backends (with_limits default_limits) (MemoryBackend.new Models.default_config)
      (Memory.new Memory.default_config)

abbrev state : AppState
state = record { dispatcher = dispatcher; template_store = record { templates = [] } }

abbrev at : ℕ → Moment
at n = record { json_text = λ v. []; id = n; built_at = 100; world = calm; answered_at = 100 }

-- The first item names a template that is not stored; the second is direct.
abbrev request : BatchSendRequest
request = record {
  notifications =
      record {
        target = user alice;
        settings = record {
          content = template orders null;
          priority = none;
          ttl = none;
          correlation_id = none;
        };
      }
      ∷ record {
        target = user bob;
        settings = record {
          content = direct orders null;
          priority = none;
          ttl = none;
          correlation_id = none;
        };
      }
      ∷ [];
  options = record { stop_on_error = true; deduplicate = true };
}

batch_send-Accounts_example : BatchOutcome 1 100 at state none request
batch_send-Accounts_example = batch_send-Accounts 1 100 at state none request

-- Two requests of different users have one key.
same_key : dedup_key (users (codes "a,b" ∷ [])) ≡ dedup_key (users (codes "a" ∷ codes "b" ∷ []))
unfolding dedup_key ℕ_discrete
same_key = refl

-- A channel that the default tenant names is that of another tenant.
default_reaches :
    namespaced (some (Context.new default_tenant_id)) (join acme orders)
    ≡ namespace_channel (Context.new acme) orders
unfolding Context.new namespace_channel Str-discrete ℕ_discrete
default_reaches = refl

key-IsBytes : IsBytes (codes "key")
key-IsBytes = (omega arith, (omega arith, (omega arith, tt)))

constant_time_eq-==_example :
    constant_time_eq (codes "key") (codes "key") ≡ (codes "key" == codes "key")
constant_time_eq-==_example =
    constant_time_eq-== (codes "key") (codes "key") key-IsBytes key-IsBytes

abbrev unicode : Unicode
unicode = record { trim = λ s. s; alphanumeric = λ c. false }

abbrev tenants : TenantManager
tenants = record { config = record default_config { enabled = true }; stats = [] }

api_key_auth-production_example :
    ((k : Str) × (some (codes "key") ≡ some k) × (some (codes "key") ≡ some k))
    × TenantOk unicode tenants (some acme) (some (Context.new acme))
unfolding api_key_auth Context.new ℕ_discrete Str-discrete
api_key_auth-production_example =
    api_key_auth-production unicode tenants (some (codes "key")) (some (codes "key")) (some acme)
      (some (Context.new acme)) key-IsBytes key-IsBytes refl
