-- ===== src/Admin/Retention.antt =====
-- admin/src/pages/DataRetention.tsx: the settings and their calls.
mod Defs
unfoldable pub use Defs.*
