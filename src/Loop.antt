-- ===== src/Loop.antt =====
-- The timer loop: src/loop.py.
pub mod State
pub mod Lifecycle
pub mod Bounds
pub mod Wakes
pub mod Valid
pub mod Samples
mod Tests
