-- ===== src/Admin/IpWhitelist.antt =====
-- admin/src/pages/IPWhitelist.tsx: the check of an address range, and the form with its calls.
mod Cidr
mod Defs
pub mod Ranges
mod Tests
unfoldable pub use Cidr.*
unfoldable pub use Defs.*
