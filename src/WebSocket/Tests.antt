-- ===== src/WebSocket/Tests.antt =====
-- Runs of the WebSocket handler, and the theorems at concrete inputs.
use mathlib.Core.Path.{subst}
use ara_notification_service.Common.{
  utf8_from, ◌≡◌, refl, arith, true, false, if◌then◌else◌, none, some, List, [], ◌∷◌, Str, str_key,
  nat_key, get, insert, contains, Str-discrete, ℕ_discrete, ok, codes, pos, length, is_empty, leb,
  index_push, index_insert, to_string,
}
use ara_notification_service.Fixtures.{clock, alice, bob, acme, orders}
use ara_notification_service.Connection.Types.{
  ConnectionHandle, ConnectionManager, default_limits, new_handle,
}
use ara_notification_service.Connection.Manager.{with_limits, register}
use ara_notification_service.Connection.Queries.{get_channel_connections, lookup_all}
use ara_notification_service.Connection.Valid.{IsValid}
use ara_notification_service.Connection.Invariant.{with_limits-IsValid, register-IsValid}
use ara_notification_service.Tenant.Context.{default_tenant, namespace_channel}
use ara_notification_service.Tenant.Context
use ara_notification_service.Tenant.Isolation.{IsPlain}
use ara_notification_service.Tenant.Manager.{TenantManager, default_config}
use ara_notification_service.Queue.Models.{StoredMessage, new_stored}
use ara_notification_service.Queue.Models
use ara_notification_service.Queue.MemoryBackend
use ara_notification_service.Ack.Memory
use ara_notification_service.Notification.Types.{new_event}
use ara_notification_service.Notification.Json.{null}
use ara_notification_service.WebSocket.Message.{subscribe, heartbeat, subscribed, error}
use ara_notification_service.WebSocket.Names.{is_valid_channel_name, is_valid_channel_name-IsPlain}
use ara_notification_service.WebSocket.Handler.{
  Outside, AppState, sends, text, Subscribing, subscribe_loop, process_message,
}
use ara_notification_service.WebSocket.Session.{
  Claims, channel_buffer_size, fill_buffer, open_socket, handle_socket, extract_token,
}
use ara_notification_service.WebSocket.Replay.{fill_buffer_lem, notifications}
use ara_notification_service.WebSocket.Keeping.{ParsesUtf8, AllUtf8}
use ara_notification_service.WebSocket.Verdicts.{Verdict}
use ara_notification_service.WebSocket.Rounds.{Answered}
use ara_notification_service.WebSocket.Replies.{subscribe_loop_lem}
use ara_notification_service.WebSocket.Lifecycle.{Others, waits, registered, handle_socket_lem}
use ara_notification_service.WebSocket.Tenancy.{Reachable, start, next, opens, receives, step}
use ara_notification_service.WebSocket.Isolation.{channel-one_tenant}

-- Every text asks for the orders.
abbrev outside : Outside
outside = record {
  chrono = clock;
  parse = λ t. ok (subscribe (orders ∷ []));
  uuid_text = λ n. [];
  unicode_alphanumeric = λ c. false;
}

parsed_orders : (cs : List Str) → outside.parse [] ≡ ok (subscribe cs) → orders ∷ [] ≡ cs
parsed_orders cs h = ground arith

outside-ParsesUtf8 : ParsesUtf8 outside
unfolding utf8_from
outside-ParsesUtf8 t cs h = subst AllUtf8 (parsed_orders cs h) (refl, tt)

abbrev tenants : TenantManager
tenants = record { config = record default_config { enabled = true }; stats = [] }

abbrev server : AppState
server = record {
  connection_manager = with_limits default_limits;
  tenant_manager = tenants;
  queue_backend = MemoryBackend.new (record Models.default_config { enabled = true });
  ack_backend = Memory.new Memory.default_config;
  session_store_enabled = false;
  server_id = [];
}

abbrev claims : Claims
claims = record { sub = alice; exp = pos 0; iat = pos 0; roles = []; tenant = some acme }

abbrev handle : ConnectionHandle
handle = new_handle clock 100 7 alice acme [] 0

valid_names :
    (is_valid_channel_name (λ c. false) (codes "v1.events-a_B") ≡ true)
    × (is_valid_channel_name (λ c. false) (codes "a:b") ≡ false)
    × (is_valid_channel_name (λ c. false) [] ≡ false)
unfolding is_valid_channel_name ℕ_discrete
valid_names = (refl, refl, refl)

bearer :
    (extract_token none (some (codes "Bearer x")) ≡ some (codes "x"))
    × (extract_token (some alice) none ≡ some alice)
    × (extract_token none (some (codes "Basic x")) ≡ none)
unfolding extract_token ℕ_discrete
bearer = (refl, refl, refl)

number_text : to_string 1048 ≡ codes "1048"
unfolding to_string
number_text = refl

-- One name is confirmed, the other refused.
mixed :
    (process_message
      (record outside { parse = λ t. ok (subscribe (orders ∷ (b':' ∷ []) ∷ [])) })
      101
      (text [])
      (open_socket outside 100 (λ x. 100) 7 0 claims [] server).0
      handle).1
    ≡ sends (subscribed (orders ∷ []))
      ∷ sends (error (codes "SUBSCRIPTION_ERROR") (codes "Invalid channel name: :"))
      ∷ []
unfolding process_message open_socket with_limits get insert Str-discrete ℕ_discrete new_handle
    index_push index_insert contains MemoryBackend.new
mixed = refl

is_valid_channel_name-IsPlain_example :
    (is_empty orders ≡ false) × (leb (length orders) 64 ≡ true) × IsPlain orders
unfolding is_valid_channel_name ℕ_discrete utf8_from
is_valid_channel_name-IsPlain_example = is_valid_channel_name-IsPlain (λ c. false) orders refl refl

-- Thirty-two others are in the buffer: the message waits.
abbrev stored : StoredMessage
stored = new_stored 1 100 (new_event 1 90 orders null bob)

fill_buffer_lem_example :
    let (filled, waiting) = fill_buffer (stored ∷ []) (heartbeat ∷ []) in
    (is_empty waiting ≡ leb 2 channel_buffer_size)
    × (if is_empty waiting
        then filled ≡ heartbeat ∷ notifications (stored ∷ [])
        else length filled ≡ channel_buffer_size)
fill_buffer_lem_example = fill_buffer_lem (stored ∷ []) (heartbeat ∷ []) (omega arith)

-- Connection 7 asks for a channel with a valid name and for one with a wrong name.
abbrev one : ConnectionManager
one = (register clock 100 7 (with_limits default_limits) alice acme [] 0).0

abbrev asked : Subscribing
asked = record { manager = one; done = []; errors = [] }

subscribe_loop_lem_example :
    let out = subscribe_loop outside default_tenant 7 (orders ∷ (b':' ∷ []) ∷ []) asked in
    IsValid out.manager
    × ((vs : List Verdict) × Answered outside default_tenant 7 asked out
          (orders ∷ (b':' ∷ []) ∷ [])
          vs)
unfolding get with_limits
subscribe_loop_lem_example =
    subscribe_loop_lem outside default_tenant 7 (orders ∷ (b':' ∷ []) ∷ []) asked (
      register-IsValid clock 100 7 (with_limits default_limits) alice acme [] 0
        (with_limits-IsValid default_limits) refl)

handle_socket_lem_example :
    let out =
      (handle_socket outside 100 (λ x. 100) 7 0 claims ((101, some (text [])) ∷ []) server).0 in
    let o = (open_socket outside 100 (λ x. 100) 7 0 claims [] server).2 in
    IsValid out.connection_manager
    × Others 7 server out
    × (get 7 out.connection_manager.connections ≡ (if waits o then registered o else none))
unfolding with_limits get
handle_socket_lem_example =
    handle_socket_lem outside 100 (λ x. 100) 7 0 claims ((101, some (text [])) ∷ []) server
      outside-ParsesUtf8 (with_limits-IsValid default_limits) refl

-- Alice and Bob of one tenant ask for the orders.
abbrev handle_bob : ConnectionHandle
handle_bob = new_handle clock 102 8 bob acme [] 1

abbrev claims_bob : Claims
claims_bob = record claims { sub = bob }

abbrev both_open : AppState
both_open =
    (open_socket outside 102 (λ x. 102) 8 1 claims_bob []
      (open_socket outside 100 (λ x. 100) 7 0 claims [] server).0).0

abbrev both_listen : AppState
both_listen =
    (process_message outside 104 (text [])
      (process_message outside 103 (text []) both_open handle).0 handle_bob).0

both_listen-Reachable : Reachable outside server both_listen
unfolding step with_limits get insert ℕ_discrete open_socket new_handle process_message
    MemoryBackend.new index_push Str-discrete
both_listen-Reachable = next (receives 104 handle_bob (text [])) refl (
    next (receives 103 handle (text [])) refl (
      next (opens 102 (λ x. 102) 8 1 claims_bob []) refl
        (next (opens 100 (λ x. 100) 7 0 claims []) refl start)))

abbrev stored_alice : ConnectionHandle
stored_alice = record handle {
  last_activity = pos 103;
  subscriptions = namespace_channel (Context.new acme) orders ∷ [];
}

abbrev stored_bob : ConnectionHandle
stored_bob = record handle_bob {
  last_activity = pos 104;
  subscriptions = namespace_channel (Context.new acme) orders ∷ [];
}

channel-one_tenant_example : stored_alice.tenant_id ≡ stored_bob.tenant_id
unfolding with_limits get process_message open_socket MemoryBackend.new insert index_push
    Str-discrete ℕ_discrete contains get_channel_connections lookup_all index_insert Context.new
    new_handle
channel-one_tenant_example =
    channel-one_tenant outside server outside-ParsesUtf8 refl refl both_listen-Reachable
      (namespace_channel (Context.new acme) orders) 7 8 stored_alice stored_bob refl refl refl refl
