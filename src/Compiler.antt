-- ===== src/Compiler.antt =====
-- packages/game-core/src/compiler: the ledger compiler. It walks the rows of a staging document,
-- changes the game state and the record lines, and reports findings.
pub mod Context
pub mod Statistics
pub mod HitBases
pub mod State
pub mod Responsibility
pub mod PlayMovements
pub mod PlatePlay
pub mod IndependentPlay
pub mod EventHandlers
pub mod EventTransition
pub mod Validity
pub mod ValidPlays
pub mod Books
pub mod Appearances
pub mod Balance
pub mod BalancedPlays
pub mod Observed
pub mod PlayIndex
pub mod Reviews
pub mod Headers
pub mod Replay
pub mod Ledger
pub mod Walk
pub mod Timeline
pub mod Finish
pub mod Outcome
pub mod ConflictFree
pub mod ConflictFreePlays
pub mod ConflictFreeIndex
pub mod ConflictFreeWalk
pub mod ConflictFreeEnd
pub mod SameDocument
pub mod Official
pub mod FinalScore
pub mod Sums
pub mod ConflictFreeReviews
pub mod RowChecks
