-- ===== src/Api.antt =====
-- web/src/lib/api.ts and admin/src/lib/api.ts: the client that sends every request of the two
-- applications, attaches the access token and renews it once when the server answers 401.
mod Http
mod Client
mod Apps
pub mod Refresh
pub mod Laws
mod Tests
unfoldable pub use Http.*
unfoldable pub use Client.*
unfoldable pub use Apps.*
