-- ===== src/Jobs.antt =====
-- The options of a watcher, as they are parsed: src/runtime.py, and who gives them.
pub mod Options
pub mod Parse
pub mod Submit
pub mod Names
pub mod Timers
pub mod Pairs
pub mod Waits
pub mod Samples
mod Tests
