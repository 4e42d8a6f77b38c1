-- ===== src/Jobs.antt =====
-- job_runner.py: native generation jobs, their cancellation and their execution.
pub mod Runner
pub mod Execution
pub mod Fallback
