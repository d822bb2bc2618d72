-- ===== src/Palette.antt =====
-- web/src/components/CommandPalette.tsx: the search over what the query cache holds, the groups that
-- it shows, and its keyboard.
mod Matching
mod Results
mod Keys
pub mod Laws
mod Tests
unfoldable pub use Matching.*
unfoldable pub use Results.*
unfoldable pub use Keys.*
