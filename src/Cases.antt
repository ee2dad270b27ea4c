-- ===== src/Cases.antt =====
-- The store of Application cases of src/oathcast/cases.py: `Store` has the tables, `Create`, `Replies`,
-- `Seal` and `Resolve` the methods, `Read` what they return.
pub mod Store
pub mod Read
pub mod Loaded
pub mod Create
pub mod Replies
pub mod Seal
pub mod Resolve
pub mod Later
pub mod Keeps
pub mod Writes
pub mod Lifecycle
pub mod Frame
pub mod Sealed
pub mod History
pub mod Exclusive
pub mod Once
mod Tests
