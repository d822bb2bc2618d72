-- ===== src/Inspect.antt =====
-- web/src/pages/TunnelInspect.tsx: the entries of the live traffic, pausing and the filter, the socket,
-- and what is copied and replayed.
mod Defs
mod Replaying
pub mod Bound
pub mod Feed
mod Tests
unfoldable pub use Defs.*
unfoldable pub use Replaying.*
