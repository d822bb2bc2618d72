-- ===== src/Routes.antt =====
-- The routes of the two applications, and the links that lead to them: web/src/App.tsx,
-- web/src/components/Layout.tsx, admin/src/App.tsx and admin/src/components/AdminLayout.tsx.
mod Defs
mod Tables
pub mod Access
pub mod Links
pub mod Results
mod Tests
unfoldable pub use Defs.*
unfoldable pub use Tables.*
