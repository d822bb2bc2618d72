-- ===== src/Admin/Invoices.antt =====
-- admin/src/pages/Invoices.tsx: the list with its filters, the row that is open with its detail, and the
-- two calls that change an invoice.
mod Defs
pub mod Details
pub mod Race
mod Tests
unfoldable pub use Defs.*
