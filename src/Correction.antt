-- ===== src/Correction.antt =====
-- The manual corrections of a game document.

pub mod Rows
pub mod Tracking
pub mod Contexts
pub mod Rosters
pub mod Commands
pub mod RowLaws
pub mod Links
pub mod Structure
pub mod RosterLaws
pub mod StructuredCommands
pub mod Accepted
pub mod Preserve
pub mod Batch
pub mod Decoded
pub mod Preview
pub mod Resolutions
pub mod Numbered
