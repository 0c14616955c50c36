-- ===== src/Validation.antt =====
-- The checks on the tracking candidates and on the official records behind the compiled ledger.

pub mod Tracking
pub mod Linked
pub mod Adds
pub mod Settled
pub mod Single
pub mod Official
pub mod OfficialAgreement
