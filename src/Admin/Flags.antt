-- ===== src/Admin/Flags.antt =====
-- admin/src/pages/FeatureFlags.tsx: the form of a flag, and its calls.
mod Defs
pub mod Toggling
unfoldable pub use Defs.*
