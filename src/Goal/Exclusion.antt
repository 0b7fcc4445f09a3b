-- ===== src/Goal/Exclusion.antt =====
-- Nodes at work, by src/goal.py: an abstract account of what the operations may do to the nodes,
-- and the invariants that it keeps.
pub mod Conflicts
pub mod Moves
pub mod Starts
pub mod Waits
pub mod Ends
pub mod Refinement
pub mod Apart
pub mod Backed
pub mod Reachable
