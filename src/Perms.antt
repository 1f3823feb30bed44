-- ===== src/Perms.antt =====
-- Roles, actions and permissions of the build system (alws/perms, and PermissionsMixin of
-- alws/models.py). `can_perform` is the check that every guarded operation makes.
pub mod Actions
pub mod Roles
pub mod Triad
pub mod Authorization
mod Tests
