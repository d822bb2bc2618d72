-- ===== src/Pages.antt =====
-- Pages of web/src/pages whose state is a form, a dialog and their calls, and the age of an event.
pub mod Webhooks
pub mod Domains
pub mod Networks
pub mod Settings
pub mod TunnelDetail
pub mod Notices
pub mod NetworkDetail
pub mod Billing
pub mod Downloads
pub mod Dashboard
pub mod Activity
pub mod Ago
mod Tests
