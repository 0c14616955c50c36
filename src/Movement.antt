-- ===== src/Movement.antt =====
-- packages/game-core/src/compiler/movement-engine.ts: the movements of one play, ordered so that
-- each base is free when it is reached, checked on a copy of the bases, and applied as a whole.
pub mod Order
pub mod OrderLaws
pub mod OrderRunner
pub mod Placement
pub mod Transition
pub mod TransitionLaws
pub mod Runs
pub mod Occupancy
pub mod Conservation
pub mod Failures
