-- ===== src/Registration.antt =====
-- The declarations of Miners for registration: src/oathcast/registration.py.
pub mod Declaration
pub mod Generations
mod Tests
