-- ===== src/Registry.antt =====
-- The registry of the wait daemon: src/waitd.py.
pub mod State
pub mod Sorting
pub mod Pruning
pub mod Protected
pub mod Prefixes
pub mod Resume
pub mod Identifiers
pub mod Cancelled
mod Tests
