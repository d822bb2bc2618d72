-- ===== src/Admin/Announcements.antt =====
-- admin/src/pages/Announcements.tsx: the form of an announcement, and its calls.
mod Defs
unfoldable pub use Defs.*
