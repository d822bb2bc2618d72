-- ===== src/Socket/Routing.antt =====
-- The handlers of `OmniTunWS`: `on`, `off` and the routing of a message by its `type`.
mod Defs
pub mod Subscriptions
pub mod Delivery
unfoldable pub use Defs.*
