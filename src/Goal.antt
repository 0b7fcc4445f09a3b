-- ===== src/Goal.antt =====
-- The goal graph: src/goal.py.
pub mod State
pub mod Paths
pub mod Queries
pub mod Checks
pub mod Acyclic
pub mod Validate
pub mod Graph
pub mod Agents
pub mod Waits
pub mod Wakes
pub mod Ready
pub mod Lifecycle
pub mod Commands
pub mod Store
pub mod Exclusion
pub mod Samples
mod Tests
