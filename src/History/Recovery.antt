-- ===== src/History/Recovery.antt =====
-- What a transaction of history_transactions.py leaves behind, wherever it fails or exits.
pub mod Triples
pub mod Entries
pub mod Invariant
pub mod Moves
pub mod Slots
pub mod Rollback
pub mod Home
pub mod Staging
pub mod Undo
pub mod Atomic
pub mod Samples
mod Examples
