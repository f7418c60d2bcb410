-- ===== src/Helpers.antt =====
-- src/kanibako/helpers.py: the numbering of helpers as a B-ary tree, and the spawn budget.
-- Agents are numbered by ℕ (the director is 0, and the hub refuses negative numbers); a breadth or
-- a depth is an integer, where -1 means unlimited.
pub mod Tree
pub mod Depth
pub mod Budget
pub mod SpawnConfig
mod Tests
