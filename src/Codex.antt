-- ===== src/Codex.antt =====
-- The client of the app server of codex: src/codex.py.
pub mod Rpc
pub mod Wake
pub mod Retries
pub mod Success
pub mod Bytes
pub mod Frames
pub mod Masking
pub mod Fragments
pub mod Messages
pub mod Fuel
mod Samples
mod Tests
