-- ===== src/Api/Laws.antt =====
-- What `ApiClient` guarantees.
pub mod Coherence
pub mod Attempts
pub mod Errors
pub mod Renewal
