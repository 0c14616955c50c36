-- ===== src/Game.antt =====
-- packages/game-core/src/types.ts and compiler/model.ts: the state of a game, the facts that the
-- compiler derives from the ledger, and the findings it reports.
pub mod Findings
pub mod State
pub mod Lines
