-- ===== src/Socket/Hook.antt =====
-- web/src/hooks/useWebSocket.ts: the effect that makes and closes a client.
mod Defs
pub mod Clients
mod Tests
unfoldable pub use Defs.*
