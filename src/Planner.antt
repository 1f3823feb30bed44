-- ===== src/Planner.antt =====
-- alws/build_planner.py: BuildPlanner makes the tasks of a build and the dependencies between them.
pub mod Dependencies
pub mod Edges
pub mod Platform
pub mod Order
mod Tests
