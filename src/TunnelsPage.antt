-- ===== src/TunnelsPage.antt =====
-- web/src/pages/Tunnels.tsx: the filter and the pages of the list, the selection with its batch calls,
-- and the form of a new tunnel.
mod Listing
mod Filling
mod Creating
pub mod Laws
mod Tests
unfoldable pub use Listing.*
unfoldable pub use Filling.*
unfoldable pub use Creating.*
