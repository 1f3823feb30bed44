-- ===== src/Users.antt =====
-- alws/crud/user.py: who may change the roles of a user, and when a user may be removed.
pub mod Roles
pub mod Editable
pub mod Removal
pub mod Unlinked
mod Tests
