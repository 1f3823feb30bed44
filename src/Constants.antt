-- ===== src/Constants.antt =====
-- alws/constants.py, in parts.
pub mod Statuses
pub mod SignStatuses
pub mod RefTypes
pub mod Matching
mod Tests
