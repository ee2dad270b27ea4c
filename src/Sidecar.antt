-- ===== src/Sidecar.antt =====
-- The client of the private payment sidecar: src/oathcast/application_payment.py.
pub mod Text
pub mod Evidence
pub mod Response
pub mod Socket
pub mod Boundary
pub mod Verified
pub mod Gate
pub mod Delivered
pub mod Ambiguous
pub mod Bounded
pub mod Sample
mod Tests
