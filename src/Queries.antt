-- ===== src/Queries.antt =====
-- web/src/hooks/useTunnels.ts and web/src/hooks/useNetworks.ts: the requests of the queries and
-- mutations, and the query keys that a mutation invalidates.
mod Defs
pub mod Invalidation
mod Tests
unfoldable pub use Defs.*
