-- ===== src/Admin/Customers.antt =====
-- admin/src/pages/CustomerCRM.tsx and admin/src/pages/CustomerDetail.tsx: the list of the customers with
-- its filters, and the page of one customer.
mod Defs
pub mod Bands
mod Tests
unfoldable pub use Defs.*
