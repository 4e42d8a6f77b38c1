-- ===== src/Engine.antt =====
-- persistent_engine.py: the resident native engine, from its start to its release.
pub mod Model
pub mod Identity
pub mod Release
pub mod Starting
pub mod Generating
mod Examples
