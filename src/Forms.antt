-- ===== src/Forms.antt =====
-- web/src/pages/Login.tsx, web/src/pages/Register.tsx and admin/src/pages/Login.tsx: the checks of the
-- forms and their submission.
mod Checks
mod Defs
pub mod Submitting
pub mod Password
mod Tests
unfoldable pub use Checks.*
unfoldable pub use Defs.*
