-- ===== src/Admin/Discounts.antt =====
-- admin/src/pages/DiscountCodes.tsx: the form of a discount, and its calls.
mod Defs
pub mod Editing
mod Tests
unfoldable pub use Defs.*
