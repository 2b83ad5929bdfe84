-- ===== src/Tenant/Tests.antt =====
-- Runs of the tenant code, and the theorems at concrete inputs.
use ara_notification_service.Common.{
  contains, ◌≡◌, refl, arith, none, if◌then◌else◌, some, List, [], ◌∷◌, str_key, ◌==◌, Str-discrete,
  ℕ_discrete,
}
use ara_notification_service.Fixtures.{alice, bob, acme, orders}
use ara_notification_service.Tenant.Context.{
  default_tenant_id, new, join, namespace_channel, extract_channel_name, tenant_scoped_key,
}
use ara_notification_service.Tenant.Isolation.{
  tenant_scoped_key-injective, extract_channel_name-namespace_channel,
}
use ara_notification_service.Tenant.Manager
use ara_notification_service.Tenant.Counts.{
  Event, connects, disconnects, sends, delivers, run, tally_all, no_tally, Balanced, Counts,
  get_stats-Counts,
}

tenant_scoped_key-injective_example : (acme ≡ acme) × (alice ≡ alice)
unfolding contains ℕ_discrete
tenant_scoped_key-injective_example =
    tenant_scoped_key-injective acme acme alice alice refl refl refl

extract_channel_name-namespace_channel_example :
    extract_channel_name (new acme) (namespace_channel (new bob) orders)
    ≡ (if acme == bob then some orders else none)
unfolding contains ℕ_discrete
extract_channel_name-namespace_channel_example =
    extract_channel_name-namespace_channel acme bob orders refl refl refl

-- A user of the default tenant with `:` in the name gets the queue of another tenant's user.
shared_queue_test : tenant_scoped_key default_tenant_id (join acme bob) ≡ tenant_scoped_key acme bob
unfolding tenant_scoped_key Str-discrete ℕ_discrete
shared_queue_test = refl

-- A tenant whose name is the start of another's takes that tenant's channel for its own.
foreign_channel_test :
    extract_channel_name (new acme) (namespace_channel (new (join acme bob)) orders)
    ≡ some (join bob orders)
unfolding extract_channel_name namespace_channel new Str-discrete ℕ_discrete
foreign_channel_test = refl

abbrev history : List Event
history =
    connects acme
    ∷ connects bob
    ∷ sends acme
    ∷ delivers acme 3
    ∷ connects acme
    ∷ disconnects acme
    ∷ []

history-Balanced : Balanced acme no_tally history
unfolding Str-discrete ℕ_discrete
history-Balanced = ground arith

get_stats-Counts_example :
    Counts
      (Manager.get_stats (run (Manager.new Manager.default_config) history) acme)
      (tally_all acme no_tally history)
get_stats-Counts_example = get_stats-Counts acme Manager.default_config history history-Balanced
