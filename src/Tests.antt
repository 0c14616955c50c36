-- ===== src/Tests.antt =====
-- Concrete games: runs of the model, and the theorems at inputs that meet their hypotheses.
mod Samples
mod Rules
mod Movement
mod Compiler
mod Facts
mod Correction
mod Reducer
mod Server
mod Validation
