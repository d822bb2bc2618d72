-- ===== src/Dialogs.antt =====
-- web/src/components/ui/Dialog.tsx: the dialogs of a page with the listeners of the document, which the
-- command palette of web/src/components/CommandPalette.tsx shares.
mod Defs
pub mod Commits
mod Tests
unfoldable pub use Defs.*
