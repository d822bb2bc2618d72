-- ===== src/Token.antt =====
-- web/src/lib/auth.ts and admin/src/lib/auth.ts: the tokens in `localStorage`, and what their JWT says.
-- `web` and `admin` differ in the keys, in the default role and in `org_id`, which only `web` reads.
mod Split
mod Defs
mod Apps
pub mod Laws
mod Tests
unfoldable pub use Split.*
unfoldable pub use Defs.*
unfoldable pub use Apps.*
