-- ===== src/Admin/Roles.antt =====
-- admin/src/pages/Roles.tsx: the form of a role with its permissions, and its calls.
mod Permissions
mod Defs
pub mod Ticks
mod Tests
unfoldable pub use Permissions.*
unfoldable pub use Defs.*
