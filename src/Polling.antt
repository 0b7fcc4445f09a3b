-- ===== src/Polling.antt =====
-- src/polling.py, the loop of `poll`.
pub mod Loop
pub mod Streaks
mod Tests
