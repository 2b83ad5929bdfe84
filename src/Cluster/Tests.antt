-- ===== src/Cluster/Tests.antt =====
-- Runs of the cluster router, and its theorem at a concrete input.
use ara_notification_service.Common.{
  ◌≡◌, refl, Bool, true, false, not, ◌&&◌, [], ◌∷◌, Str, str_key, nat_key, contains, ◌==◌, get,
  insert, Str-discrete, ℕ_discrete, Result, ok, index_push, index_insert,
}
use ara_notification_service.Fixtures.{clock, alice, bob, acme, orders}
use ara_notification_service.Connection.Types.{ConnectionHandle, ConnectionManager, default_limits}
use ara_notification_service.Connection.Manager.{with_limits, register}
use ara_notification_service.Connection.Queries.{lookup_all}
use ara_notification_service.Connection.Lookup.{Exact}
use ara_notification_service.Connection.Narrowed.{of_user_in}
use ara_notification_service.Connection.Invariant.{with_limits-IsValid}
use ara_notification_service.Connection.Calls.{registers, step, Reachable, start, next}
use ara_notification_service.Connection.Reachable.{Reachable-IsValid}
use ara_notification_service.WebSocket.Message.{ServerMessage, pong}
use ara_notification_service.Cluster.Types.{local_store}
use ara_notification_service.Cluster.Router.{ClusterRouter, route_to_user, is_user_local}
use ara_notification_service.Cluster.Delivery.{arrivals, route_to_user-Exact}

-- Alice has a connection on the server `o`; the message goes out from the server `b`.
abbrev one : ConnectionManager
one = (register clock 100 7 (with_limits default_limits) alice acme [] 0).0

abbrev here : ClusterRouter
here = record {
  connection_manager = with_limits default_limits;
  session_store = record (local_store bob) {
    is_enabled = true;
    find_user_servers = λ user_id. ok (bob ∷ orders ∷ []);
  };
}

abbrev there : ClusterRouter
there = record { connection_manager = one; session_store = local_store orders }

abbrev takes : ConnectionHandle → Bool
takes h = true

abbrev parse : Str → Result ServerMessage Str
parse s = ok pong

abbrev json_text : ServerMessage → Result Str Str
json_text m = ok orders

found_there : (is_user_local there alice acme ≡ true) × (is_user_local there alice bob ≡ false)
unfolding is_user_local register with_limits get insert index_push index_insert Str-discrete
    ℕ_discrete contains lookup_all
found_there = (refl, refl)

one-Reachable : Reachable clock default_limits one
unfolding step with_limits get
one-Reachable = next (registers 100 7 alice acme [] 0) refl start

-- Alice's connection is reached on the other server.
route_to_user-Exact_example :
    let (own, published, result) = route_to_user json_text takes here alice acme pong in
    Exact (with_limits default_limits) (of_user_in alice acme) own
    × Exact one
        (λ o.
          (contains orders (bob ∷ orders ∷ []) && not (orders == bob)) && of_user_in alice acme o)
        (arrivals parse takes there published)
unfolding local_store contains Str-discrete ℕ_discrete
route_to_user-Exact_example =
    route_to_user-Exact parse takes json_text here there alice acme pong orders (bob ∷ orders ∷ [])
      (with_limits-IsValid default_limits) (Reachable-IsValid clock default_limits one-Reachable)
      refl refl (refl, (refl, tt)) refl refl
