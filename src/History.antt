-- ===== src/History.antt =====
-- history_transactions.py: recoverable deletion of history files.
pub mod Record
pub mod Reading
pub mod Local
pub mod Transaction
pub mod Flags
pub mod Recovery
