-- ===== src/WebSocket.antt =====
-- The WebSocket handler (src/domain/realtime/websocket): the messages of clients and server, what
-- each message does to the registry and the backends, and the life of a connection. The SSE handler
-- (src/domain/realtime/sse/handler.rs) opens its connections in the same way.
pub mod Message
pub mod Names
pub mod Handler
pub mod Session
pub mod Replay
pub mod Opening
pub mod Keeping
pub mod Lifecycle
pub mod Verdicts
pub mod Rounds
pub mod Replies
pub mod Valid
pub mod Tenancy
pub mod Isolation
mod Tests
