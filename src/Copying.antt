-- ===== src/Copying.antt =====
-- The buttons that copy a text and show a mark for two seconds: web/src/pages/Tunnels.tsx,
-- Settings.tsx, Domains.tsx, Webhooks.tsx, NetworkDetail.tsx, Onboarding.tsx, ApiDocs.tsx and
-- Downloads.tsx beside it.
mod Defs
pub mod Marks
pub mod Lasting
mod Tests
unfoldable pub use Defs.*
