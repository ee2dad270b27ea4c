-- ===== src/Receipts.antt =====
-- The receipt store of src/oathcast/receipts.py: `Store` has the table and its methods, `Capacity` the
-- telemetry, `Chain` the hash chain over the table; the others prove what these do.
pub mod Store
pub mod Capacity
pub mod Outcome
pub mod History
pub mod Chain
pub mod Evidence
pub mod Full
pub mod Roundtrip
pub mod Prefix
pub mod Tamper
pub mod Audit
pub mod Book
mod Tests
