-- ===== src/Pages/TunnelDetail.antt =====
-- web/src/pages/TunnelDetail.tsx: the edit dialog, the buttons, the log and the chart of one tunnel.
mod Defs
pub mod Editing
pub mod Traffic
mod Tests
unfoldable pub use Defs.*
