-- ===== src/Workflow.antt =====
-- The Application's workflow over the router and the case store: src/oathcast/workflow.py.
pub mod Steps
pub mod Frozen
pub mod Closed
mod Tests
