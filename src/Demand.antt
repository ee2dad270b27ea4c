-- ===== src/Demand.antt =====
-- The demand events and their ledger of src/oathcast/demand.py: `Event` has the event and its checks,
-- `Ledger` the append-only table, `History` what any sequence of records leaves.
pub mod Event
pub mod Ledger
pub mod History
pub mod Recorded
mod Tests
