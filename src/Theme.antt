-- ===== src/Theme.antt =====
-- web/src/components/ThemeToggle.tsx: the theme, where it is kept, and the button that changes it.
mod Defs
pub mod Reload
mod Tests
unfoldable pub use Defs.*
