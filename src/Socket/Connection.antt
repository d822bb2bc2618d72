-- ===== src/Socket/Connection.antt =====
-- The connection of `OmniTunWS`: its state, the socket, and the reconnects with their delays.
mod Defs
pub mod Delays
pub mod Invariant
pub mod Closing
pub mod GivingUp
unfoldable pub use Defs.*
