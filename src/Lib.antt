-- ===== src/Lib.antt =====
-- A verification library for the Ara notification service, a server that pushes notifications to
-- WebSocket and SSE clients. It models the service's own logic in the memory of one process and proves
-- what makes it correct.
--
-- The parts and how they interact. A client's connection is entered in the registry
-- (src/domain/connection), which indexes it by user, tenant and subscribed channel and enforces the
-- limits. The dispatcher (src/domain/notification/dispatcher.rs) takes an event and a target, asks the
-- registry for the connections, sends to each, has the acknowledgment backend (src/domain/ack) await the
-- user's confirmation, and puts the event in the queue (src/domain/queue) of a user who is offline, under
-- a key that names the tenant (src/domain/tenant, src/infrastructure/auth/claims.rs). Clients open their
-- connections and subscribe over WebSocket (src/domain/realtime/websocket), and are handed the queued
-- messages on the way. Notifications come in over HTTP (src/domain/notification/triggers/http), alone or
-- in batches, with their content given or rendered from a template (src/domain/template), behind the
-- check of the API key (src/server/middleware.rs), or over Redis (triggers/redis.rs beside it). A router
-- (src/domain/cluster) takes messages to users on other servers. A background task
-- (src/tasks/heartbeat.rs) pings every connection and sweeps the stale ones. Requests pass a rate limiter
-- (src/domain/ratelimit). Calls to Redis pass a circuit breaker
-- (src/infrastructure/redis/circuit_breaker.rs).
--
-- The files, each with the code that it models:
--   Common          names passed on from the libraries, and the shared lemmas: lists, hash maps as
--                   association lists (Maps), indexes from a key to identifiers (Index), 64-bit integers
--                   (Int), texts and their characters (Text, Chars), results, and the time library
--                   as a record of functions (Time)
--   Fixtures        a clock and texts for the tests
--   Connection      types.rs, stats.rs (Types), the operations of manager.rs that write (Manager) and
--                   that read (Queries); the invariant (Valid, Invariant), what lookups return (Lookup),
--                   and which of these pass a test (Narrowed), limits (Limits, Bounds), effects
--                   (Registration, Effects, Stale), reachable registries (Calls, Reachable)
--   CircuitBreaker  circuit_breaker.rs (Breaker), its invariant (Invariant), when it opens (Runs) and
--                   how it comes back (Recovery, Closing)
--   Notification    notification/types.rs (Types); a JSON value is a tree of its own (Json)
--   Dispatcher      notification/dispatcher.rs: state and sending (Model), the handlers (Handlers), whom
--                   they reach (Recipients, Batches), what they count (Accounting), offline users
--                   (Offline)
--   Queue           models.rs and backend.rs (Models), the loops that memory_backend.rs and user_queue.rs
--                   share (Core), the two queues (MemoryBackend, UserQueue) and their laws (Enqueues,
--                   MemoryLaws, MemoryRuns, Replay and others)
--   Ack             ack_memory_backend.rs and the data of ack_backend.rs (Memory), laws and runs
--   Tenant          tenant/mod.rs: contexts (Context) and counters (Manager); laws (Isolation, Counts)
--   WebSocket       realtime/websocket/message.rs (Message), the channel names (Names), the handling of
--                   messages (Handler) and the life of a connection (Session) of handler.rs; what
--                   replies say (Verdicts, Rounds, Replies), what messages keep (Keeping, Valid), the replay
--                   (Replay), a whole connection (Opening, Lifecycle), and many of them (Tenancy,
--                   Isolation)
--   Template        types.rs (Types), substitution.rs (Substitution) and store.rs (Store); texts as
--                   segments (Segments), rendering (Rendering), the store through calls (Runs)
--   Http            infrastructure/error (Errors), server/middleware.rs (Auth, AuthLaws), and of
--                   triggers/http content.rs (Content), handlers.rs with models.rs (Handlers) and
--                   batch.rs (BatchTypes, Batch) with the accounting of batches (BatchRounds, BatchLaws)
--   RedisTrigger    triggers/redis.rs: the messages (Messages), the loops (Subscriber), when they stop (Laws)
--   Cluster         cluster/types.rs, traits.rs and local.rs (Types), router.rs (Router), and what a routed
--                   message reaches (Delivery)
--   Heartbeat       tasks/heartbeat.rs: the task (Task), what it sends and sweeps (Laws)
--   RateLimit       token_bucket.rs (TokenBucket), limiter.rs and config.rs (Limiter); laws (Bounds, Checks)
--
-- How the code is rendered. A struct is a record, an enum a data type with the same constructors, a method
-- a function with the same name from the state to the new state and the answer. A DashMap or HashMap is an
-- association list with one entry for each key; no theorem relies on the order of its entries. A call runs
-- alone, as one step: the interleaving of two calls between their accesses to a map or an atomic is not
-- modelled. A text is the list of its bytes, a Uuid and a point in time are numbers, passed to the call
-- that draws or reads them; where a loop reads the clock for each element, the readings are a function of
-- the element. Counters of 32 and 64 bits wrap as they do in a release build; a size in memory (usize) does
-- not, since no collection holds 2^64 elements. What the crate chrono computes is a record of functions,
-- whose only assumed law is that an age does not fall as the clock moves on. In the dispatcher, which
-- connections take a message and the order in which concurrent sends end are parameters; the only
-- assumption, where a theorem names it, is that each concurrent send ends once. The loops are structural;
-- only the cutting of a list of users into batches runs on fuel, as many rounds as there are users, each
-- of which takes at least one of them, and the decimal digits of a number, with one round more than the
-- number, each of which divides it by ten. The parser and printer of JSON (serde_json), the tables of
-- Unicode and the validator of tokens are parameters; of the parser theorems assume, where they name it,
-- that the strings that it returns are in UTF-8. A channel of the crate tokio is its buffer: what is sent
-- to a full one waits. The connections of the WebSocket handler form a transition system, in which the
-- messages of different connections come in any order, each handled as one step.
--
-- Not modelled: logging, metrics and telemetry; sockets, the reading of requests, routes, configuration
-- and wiring; the backends in Redis and PostgreSQL and the cluster stores, which are queries to servers
-- outside the repository; delays and rates in floating point; the loop that receives routed messages from Redis.
pub mod Common
pub mod CircuitBreaker
pub mod Connection
pub mod Notification
pub mod Queue
pub mod Ack
pub mod Tenant
pub mod RateLimit
pub mod Dispatcher
pub mod WebSocket
pub mod Template
pub mod Http
pub mod RedisTrigger
pub mod Cluster
pub mod Heartbeat
mod Fixtures
