-- ===== src/Teams.antt =====
-- alws/crud/teams.py: the members of a team and their roles, and the removal of a team.
pub mod Members
pub mod Kept
pub mod Skipped
mod Tests
