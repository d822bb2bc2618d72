-- ===== src/Admin/Abuse.antt =====
-- admin/src/pages/Blacklist.tsx and admin/src/pages/AbuseReports.tsx: the forms and their calls.
mod Defs
unfoldable pub use Defs.*
