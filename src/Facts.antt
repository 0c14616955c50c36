-- ===== src/Facts.antt =====
-- What is derived from the compiled ledger: pitch facts and baserunner lines.

pub mod Pitch
pub mod PitchLaws
pub mod Numbering
pub mod Numbers
pub mod Baserunner
pub mod Document
