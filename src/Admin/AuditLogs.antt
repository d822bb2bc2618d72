-- ===== src/Admin/AuditLogs.antt =====
-- admin/src/pages/AuditLogs.tsx: the filters, the query string, and the pages.
mod Defs
pub mod Pages
mod Tests
unfoldable pub use Defs.*
