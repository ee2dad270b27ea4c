-- ===== src/Discovery.antt =====
-- The registry's records of Miners: src/oathcast/discovery.py.
pub mod Records
pub mod Prices
pub mod Miner
pub mod Eligible
pub mod Complete
mod Tests
