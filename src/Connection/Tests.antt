-- ===== src/Connection/Tests.antt =====
-- Runs of the registry, and instances of its theorems.
use ara_notification_service.Common.{
  ℕ, ◌+◌, ◌≡◌, refl, false, if◌then◌else◌, none, [], ◌∷◌, length, contains, Str, nat_key, str_key,
  get, insert, remove, filed, ◌==◌, err, ℕ_discrete, Str-discrete, index_push, index_insert,
  index_remove, retain,
}
use ara_notification_service.Fixtures.{clock, alice, bob, acme, orders}
use ara_notification_service.Connection.Types.{
  ConnectionLimits, ConnectionManager, new_handle, user_limit_exceeded, subscription_limit_exceeded,
}
use ara_notification_service.Connection.Manager.{
  with_limits, register, unregister, subscribe_to_channel, unsubscribe_from_channel,
}
use ara_notification_service.Connection.Queries.{
  get_user_connections, get_tenant_connections, get_channel_connections, cleanup_stale_connections,
  is_stale, total_subscriptions, channel_exists, lookup_all,
}
use ara_notification_service.Connection.Valid.{IsValid, of_user, of_tenant, of_channel}
use ara_notification_service.Connection.Lookup.{ids, Exact, lookups-Exact}
use ara_notification_service.Connection.Limits.{WithinLimits}
use ara_notification_service.Connection.Registration.{RegisterOutcome, register_outcome}
use ara_notification_service.Connection.Stale.{cleanup_stale_connections_lem}
use ara_notification_service.Connection.Effects.{
  unregister_lem, SubscribeOutcome, subscribe_to_channel_lem,
}
use ara_notification_service.Connection.Calls.{registers, subscribes, step, Reachable, start, next}
use ara_notification_service.Connection.Bounds.{Reachable-WithinLimits}
use ara_notification_service.Connection.Reachable.{Reachable-IsValid}

program : Unit {0}
unfolding with_limits register unregister subscribe_to_channel unsubscribe_from_channel
    get_user_connections get_channel_connections cleanup_stale_connections is_stale
    total_subscriptions channel_exists lookup_all get insert remove index_push index_insert
    index_remove retain contains ℕ_discrete Str-discrete new_handle
program = tt

abbrev small : ConnectionLimits
small = record {
  max_connections = 2;
  max_connections_per_user = 1;
  max_subscriptions_per_connection = 1;
}

-- Alice has connection 7 since time 100.
abbrev one : ConnectionManager
one = (register clock 100 7 (with_limits small) alice acme [] 0).0

abbrev listening : ConnectionManager
listening = (subscribe_to_channel one 7 orders).0

one_runs : ids (get_user_connections one alice) ≡ 7 ∷ []
unfolding program
one_runs = refl

one_full : (register clock 100 8 one alice acme [] 0).1 ≡ err (user_limit_exceeded alice 1 1)
unfolding program
one_full = refl

listening_runs : ids (get_channel_connections listening orders) ≡ 7 ∷ []
unfolding program
listening_runs = refl

listening_full : (subscribe_to_channel listening 7 bob).1 ≡ err (subscription_limit_exceeded 1 1)
unfolding program
listening_full = refl

left_runs : (unregister listening 7) ≡ with_limits small
unfolding program
left_runs = refl

swept_runs : cleanup_stale_connections clock 200 listening 60 ≡ (with_limits small, 1)
unfolding program
swept_runs = refl

one-Reachable : Reachable clock small one
unfolding step with_limits get
one-Reachable = next (registers 100 7 alice acme [] 0) refl start

listening-Reachable : Reachable clock small listening
unfolding step
listening-Reachable = next (subscribes 7 orders) tt one-Reachable

Reachable-IsValid_example : IsValid listening
Reachable-IsValid_example = Reachable-IsValid clock small listening-Reachable

Reachable-WithinLimits_example : (listening.limits ≡ small) × WithinLimits listening
Reachable-WithinLimits_example = Reachable-WithinLimits clock small listening-Reachable

unregister_lem_example :
    ((i : ℕ)
      → get i (unregister listening 7).connections
        ≡ (if i == 7 then none else get i listening.connections))
    × ((u : Str) → filed (unregister listening 7).user_index u 7 ≡ false)
    × ((t : Str) → filed (unregister listening 7).tenant_index t 7 ≡ false)
    × ((c : Str) → filed (unregister listening 7).channel_index c 7 ≡ false)
unregister_lem_example = unregister_lem listening 7 Reachable-IsValid_example

subscribe_to_channel_lem_example : SubscribeOutcome listening 7 bob Reachable-IsValid_example
subscribe_to_channel_lem_example =
    subscribe_to_channel_lem listening 7 bob Reachable-IsValid_example

cleanup_stale_connections_lem_example :
    length (cleanup_stale_connections clock 200 listening 60).0.connections + 1 ≡ 1
unfolding program
cleanup_stale_connections_lem_example =
    (cleanup_stale_connections_lem clock 200 60 listening Reachable-IsValid_example).1

register_outcome_example : RegisterOutcome clock 100 8 listening bob acme [] 0
unfolding subscribe_to_channel register with_limits get insert index_push index_insert new_handle
    ℕ_discrete Str-discrete
register_outcome_example =
    register_outcome clock 100 8 listening bob acme [] 0 Reachable-IsValid_example refl

lookups-Exact_example :
    Exact listening (of_user alice) (get_user_connections listening alice)
    × Exact listening (of_tenant acme) (get_tenant_connections listening acme)
    × Exact listening (of_channel orders) (get_channel_connections listening orders)
lookups-Exact_example = lookups-Exact listening Reachable-IsValid_example alice acme orders
