-- ===== src/Contracts.antt =====
-- The game document and its relay rows.

pub mod Event
pub mod Records
pub mod Tracking
pub mod Document
pub mod Text
pub mod Semantics
pub mod Canonical
pub mod Validated
