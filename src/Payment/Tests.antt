-- ===== src/Payment/Tests.antt =====
-- A run of the payment client, and the theorems of the payment boundary at concrete inputs.
mod Scenario
mod Examples
