-- ===== src/Token/Laws.antt =====
-- What the functions of `lib/auth.ts` guarantee.
pub mod Admin
pub mod Format
pub mod Session
pub use Format.*
