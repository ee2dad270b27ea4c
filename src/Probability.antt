-- ===== src/Probability.antt =====
-- The probability of a response: src/oathcast/probability.py.
pub mod Percent
pub mod Extract
pub mod Depth
pub mod Limit
pub mod Unit
mod Tests
