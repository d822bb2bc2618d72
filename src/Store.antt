-- ===== src/Store.antt =====
-- web/src/store/auth.ts and admin/src/store/auth.ts: the login state that the pages read.
mod Defs
pub mod Actions
pub mod Invariants
pub mod Accounts
pub mod Admin
mod Tests
unfoldable pub use Defs.*
