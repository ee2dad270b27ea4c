-- ===== src/Payment/Client.antt =====
-- `TelegraphX402Client` of src/oathcast/payment.py: the configuration and its guards, and `_request`,
-- which pays for one HTTP request. The state is the journal and the requests that have left.
pub mod World
pub mod Request
pub mod Pay
pub mod Once
pub mod Stages
pub mod AtMostOnce
