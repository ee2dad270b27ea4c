-- ===== src/Router.antt =====
-- The Application's side of the Miner calls: src/oathcast/application.py.
pub mod Paying
pub mod Paid
pub mod Reply
pub mod Decide
pub mod Adapter
pub mod Aggregate
pub mod Careful
pub mod Stop
pub mod Sample
mod Tests
