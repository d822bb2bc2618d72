-- ===== src/Toasts.antt =====
-- web/src/components/ui/ToastProvider.tsx: the toasts that are shown, and their timers.
mod Defs
pub mod Timers
mod Tests
unfoldable pub use Defs.*
