-- ===== src/Batches.antt =====
-- identity_batches.py: multi-image jobs, from their matrix to their endings.
pub mod Model
pub mod Matrix
pub mod Store
pub mod Observed
pub mod Completion
pub mod Ending
pub mod Lineage
pub mod Attempt
pub mod Submission
pub mod Service
pub mod Retry
pub mod Recovery
pub mod Replay
mod Running
mod Examples
