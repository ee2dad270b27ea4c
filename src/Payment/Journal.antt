-- ===== src/Payment/Journal.antt =====
-- `SqlitePaymentJournal` of src/oathcast/payment.py: the table with its primary key, and the methods as
-- SQL transactions over it. A row is reserved before a proof is signed, and blocks its request URL
-- until it is aborted.
pub mod Table
pub mod Rows
pub mod Methods
pub mod Effects
pub mod History
pub mod Lifecycle
pub mod Again
pub mod Written
