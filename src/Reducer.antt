-- ===== src/Reducer.antt =====
-- packages/game-core/src/reducer.ts: the compiler as a whole, behind its parts.
pub mod Order
pub mod Compile
pub mod Accepted
pub mod Output
