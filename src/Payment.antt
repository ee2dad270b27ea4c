-- ===== src/Payment.antt =====
-- The x402 payment boundary, src/oathcast/payment.py.
pub mod Authorization
pub mod Challenge
pub mod Validation
pub mod Journal
pub mod Client
mod Tests
