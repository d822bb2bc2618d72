-- ===== src/Palette/Laws.antt =====
-- What the search and the keyboard of the palette do.
pub mod Subsequence
pub mod Selection
pub mod Order
pub mod Groups
