-- ===== src/Forms/Password.antt =====
-- web/src/pages/ResetPassword.tsx and web/src/pages/ForgotPassword.tsx, which call `fetch` themselves.
mod Defs
pub mod Outcomes
mod Tests
unfoldable pub use Defs.*
