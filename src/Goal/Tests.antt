-- ===== src/Goal/Tests.antt =====
-- Runs of the operations of src/goal.py on small goals.
mod Reached
mod Graphs
mod Stored
