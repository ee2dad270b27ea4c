-- ===== src/Scoring.antt =====
-- The Brier benchmark: src/oathcast/scoring.py.
pub mod Brier
pub mod Bounds
pub mod Totality
mod Tests
