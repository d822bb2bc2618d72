-- ===== src/Onboarding.antt =====
-- web/src/pages/Onboarding.tsx: the steps, the slug of the organisation with its submission, and the first
-- tunnel.
mod Defs
pub mod Slug
pub mod Steps
pub mod Order
mod Tests
unfoldable pub use Defs.*
