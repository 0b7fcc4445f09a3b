-- ===== src/Daemon.antt =====
-- The wait daemon: src/waitd.py.
pub mod State
pub mod Delivery
pub mod Program
pub mod Watch
pub mod Once
pub mod Late
pub mod Starts
pub mod Crashes
pub mod Numbers
pub mod Parts
pub mod Attempts
pub mod Sends
pub mod Programs
pub mod Runs
pub mod Sent
pub mod Unconfirmed
pub mod Replay
pub mod Success
pub mod Pauses
pub mod Samples
mod Tests
