-- ===== src/L3.antt =====
-- The research graph's pages, crates/l3: their parser and the assignment of anchors.
pub mod Ids
mod Examples
pub mod Front
pub mod Model
pub mod Bullets
pub mod Parse
pub mod Assign
pub mod Temporary
pub mod Normalize
