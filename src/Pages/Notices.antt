-- ===== src/Pages/Notices.antt =====
-- web/src/pages/Notifications.tsx over the hook of the notifications.
mod Defs
pub mod Badges
mod Tests
unfoldable pub use Defs.*
