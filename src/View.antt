-- ===== src/View.antt =====
-- internal/view: what the browser shows of a board's snapshot.
pub mod Columns
pub mod Filter
pub mod Hierarchy
pub mod Labels
pub mod Timeline
