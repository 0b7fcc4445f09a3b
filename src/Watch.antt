-- ===== src/Watch.antt =====
-- The watcher: src/runtime.py, and the arguments that src/waitd.py takes.
pub mod Owner
pub mod Delivery
pub mod Arguments
pub mod Ownership
mod Tests
