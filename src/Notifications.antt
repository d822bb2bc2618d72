-- ===== src/Notifications.antt =====
-- web/src/hooks/useNotifications.ts: the notifications of the module, and the copies that the mounted
-- components show.
mod Defs
pub mod Marking
pub mod Instances
unfoldable pub use Defs.*
