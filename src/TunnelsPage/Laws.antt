-- ===== src/TunnelsPage/Laws.antt =====
-- What the page of the tunnels does.
pub mod Paging
pub mod Selecting
pub mod Tags
pub mod Tagging
pub mod SelectionSet
