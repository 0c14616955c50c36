-- ===== src/Rules.antt =====
-- packages/game-core/src/rules.ts: what a pitch call does to the count, which pitch ends a plate
-- appearance, and the classification of results and outs.
pub mod Counts
pub mod Terminal
pub mod Results
