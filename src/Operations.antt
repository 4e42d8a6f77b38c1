-- ===== src/Operations.antt =====
-- operations.py: disk capacity and the records that wait for recovery.
pub mod Capacity
pub mod Pending
mod Examples
