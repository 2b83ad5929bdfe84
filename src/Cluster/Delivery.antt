-- ===== src/Cluster/Delivery.antt =====
-- What a routed notification reaches in the cluster.
use mathlib.Core.Path.{subst}
use mathlib.Core.List.{append-nil}
use ara_notification_service.Common.{
  ℕ, ◌≡◌, refl, sym, false, Option, nat_key, ◌∙◌, ap, arith, Bool, true, not, ◌&&◌, if◌then◌else◌,
  List, [], ◌∷◌, ◌++◌, is_empty, contains, contains-retain, IsUnique, retain-IsUnique, Str, str_key,
  ◌==◌, Result, ok,
}
use ara_notification_service.Connection.Types.{ConnectionHandle, ConnectionManager}
use ara_notification_service.Connection.Valid.{IsValid}
use ara_notification_service.Connection.Lookup.{Exact}
use ara_notification_service.Connection.Narrowed.{of_user_in, user_in_tenant-Exact}
use ara_notification_service.WebSocket.Message.{ServerMessage}
use ara_notification_service.Cluster.Types.{RoutedMessage, SessionStore, SessionStoreError}
use ara_notification_service.Cluster.Router.{
  ClusterRouter, RouteResult, tenant_connections, routed, routed_messages, other_servers,
  route_found, publish, route_result, route_to_user, deliver_parsed, handle_routed_message,
  receive_routed,
}

module _ (parse : Str → Result ServerMessage Str) (takes : ConnectionHandle → Bool) where
  -- The connections to which a server sends as it receives the messages in turn.
  abbrev pub arrivals : ClusterRouter → List RoutedMessage → List ConnectionHandle
  arrivals r [] = []
  arrivals r (m ∷ ms) = receive_routed parse takes r m ++ arrivals r ms

  module _ (r : ClusterRouter) (store : SessionStore) (user_id tenant_id payload : Str)
      (message : ServerMessage) (reads : parse payload ≡ ok message) where
    -- One message is for one server only, and never for the one it comes from.
    receive-routed :
        (target : Str)
        → receive_routed parse takes r (routed store user_id tenant_id payload target) ≡ (
            if r.session_store.server_id == target
              && not (r.session_store.server_id == store.server_id)
            then tenant_connections r.connection_manager user_id tenant_id
            else [])
    unfolding receive_routed handle_routed_message
    receive-routed target =
        let m = routed store user_id tenant_id payload target in
        ground (arith, ap (λ x. (deliver_parsed takes r m x).0) reads)

    arrivals-routed_messages :
        (targets : List Str)
        → IsUnique targets
        → arrivals r (routed_messages store user_id tenant_id payload targets) ≡ (
            if contains r.session_store.server_id targets
              && not (r.session_store.server_id == store.server_id)
            then tenant_connections r.connection_manager user_id tenant_id
            else [])
    unfolding routed_messages contains
    arrivals-routed_messages [] u = refl
    arrivals-routed_messages (target ∷ targets) u = ground (
      arith,
      receive-routed target,
      arrivals-routed_messages targets u.1,
      append-nil (tenant_connections r.connection_manager user_id tenant_id),
    )

  published-routed_messages :
      (store : SessionStore) (user_id tenant_id payload : Str) (delivered : ℕ) (servers : List Str)
      → (route_found store user_id tenant_id delivered (ok payload) (ok servers)).0
        ≡ routed_messages store user_id tenant_id payload (other_servers store servers)
  unfolding routed_messages
  published-routed_messages store user_id tenant_id payload delivered servers =
      go (other_servers store servers)
    where
      go :
          (others : List Str)
          → (let out : List RoutedMessage × Result RouteResult SessionStoreError =
                if is_empty others
                then ([], ok (route_result delivered 0))
                else publish store user_id tenant_id delivered others (ok payload) in
              out.0)
            ≡ routed_messages store user_id tenant_id payload others
      go [] = refl
      go (x ∷ others) = refl

  same_test :
      (id own : Str) (b c : Bool)
      → b ≡ (not (id == own) && c)
      → (b && not (id == own)) ≡ (c && not (id == own))
  same_test id own b c h = ground arith

  tenant_connections-Exact :
      (m : ConnectionManager)
      → IsValid m
      → (u t : Str) → Exact m (of_user_in u t) (tenant_connections m u t)
  unfolding tenant_connections
  tenant_connections-Exact m v u t = user_in_tenant-Exact m v u t

  if-Exact :
      (m : ConnectionManager) (p : Option ConnectionHandle → Bool) (hs : List ConnectionHandle)
      (b : Bool)
      → Exact m p hs
      → Exact m (λ o. b && p o) (if b then hs else [])
  unfolding contains
  if-Exact m p hs true e = record { complete = e.complete; once = e.once; stored = e.stored }
  if-Exact m p hs false e = record { complete = λ i. refl; once = tt; stored = tt }

  arrivals-route_to_user :
      (json_text : ServerMessage → Result Str Str) (a r : ClusterRouter) (user_id tenant_id : Str)
      (message : ServerMessage) (payload : Str) (servers : List Str)
      → a.session_store.is_enabled ≡ true
      → a.session_store.find_user_servers user_id ≡ ok servers
      → IsUnique servers
      → json_text message ≡ ok payload
      → parse payload ≡ ok message
      → let (here, published, result) = route_to_user json_text takes a user_id tenant_id message in
        let id = r.session_store.server_id in
        (here ≡ tenant_connections a.connection_manager user_id tenant_id)
        × (arrivals r published ≡ (
            if contains id servers && not (id == a.session_store.server_id)
            then tenant_connections r.connection_manager user_id tenant_id
            else []))
  unfolding route_to_user other_servers
  arrivals-route_to_user json_text a r user_id tenant_id message payload servers on found u writes
        reads =
      let store = a.session_store in
      let id = r.session_store.server_id in
      let others = other_servers store servers in
      let named =
        arrivals-routed_messages r store user_id tenant_id payload message reads others
          (retain-IsUnique (λ s. not (s == store.server_id)) servers u) in
      let known = contains-retain id (λ s. not (s == store.server_id)) servers in
      rw (on, writes, found, route_to_user)
        (
          refl,
          ap (arrivals r) (published-routed_messages store user_id tenant_id payload _ servers)
              ∙ named
              ∙ ap
                  (λ b. if b then tenant_connections r.connection_manager user_id tenant_id else [])
                  (same_test id store.server_id _ _ known),
        )

  -- A message for a user goes out to each connection of the user in the tenant once, and to no other.
  -- Here it is sent to those of this server; any other server that receives what was published sends it
  -- to its own if the store names that server, and to none if it does not; what comes back to this
  -- server is passed over. This is for an enabled store that answers with distinct servers, a message
  -- that can be written as JSON, a parser that reads what was written, and valid registries.
  pub route_to_user-Exact :
      (json_text : ServerMessage → Result Str Str) (a r : ClusterRouter) (user_id tenant_id : Str)
      (message : ServerMessage) (payload : Str) (servers : List Str)
      → IsValid a.connection_manager
      → IsValid r.connection_manager
      → a.session_store.is_enabled ≡ true
      → a.session_store.find_user_servers user_id ≡ ok servers
      → IsUnique servers
      → json_text message ≡ ok payload
      → parse payload ≡ ok message
      → let (here, published, result) = route_to_user json_text takes a user_id tenant_id message in
        let id = r.session_store.server_id in
        let named = contains id servers && not (id == a.session_store.server_id) in
        Exact a.connection_manager (of_user_in user_id tenant_id) here
        × Exact r.connection_manager
            (λ o. named && of_user_in user_id tenant_id o)
            (arrivals r published)
  route_to_user-Exact json_text a r user_id tenant_id message payload servers v w on found u writes
        reads =
      let id = r.session_store.server_id in
      let named = contains id servers && not (id == a.session_store.server_id) in
      let (here, there) =
        arrivals-route_to_user json_text a r user_id tenant_id message payload servers on found u
          writes reads in
      (
        subst (Exact a.connection_manager (of_user_in user_id tenant_id)) (sym here)
            (tenant_connections-Exact a.connection_manager v user_id tenant_id),
        subst (Exact r.connection_manager (λ o. named && of_user_in user_id tenant_id o))
            (sym there)
            (if-Exact r.connection_manager (of_user_in user_id tenant_id)
              (tenant_connections r.connection_manager user_id tenant_id) named
              (tenant_connections-Exact r.connection_manager w user_id tenant_id)),
      )
