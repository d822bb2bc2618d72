-- ===== src/ApiDocs/Laws.antt =====
-- What holds of the groups, the views and the samples.
pub mod Depth
pub mod Groups
pub mod Curl
pub mod Snippets
pub mod Coverage
