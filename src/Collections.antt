-- ===== src/Collections.antt =====
-- The JavaScript containers that the source uses: maps, sets of fields and sorted arrays.
pub mod Dict
pub mod Sort
pub mod Distinct
