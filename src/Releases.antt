-- ===== src/Releases.antt =====
-- alws/release_planner.py: into which repositories a package is released, as
-- AlmaLinuxReleasePlanner predicts it from Beholder's answers. The rest of the planner is left out.
pub mod Cache
pub mod Find
pub mod Consistent
pub mod Predicted
mod Tests
