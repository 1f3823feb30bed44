-- ===== src/SignTasks.antt =====
-- alws/crud/sign_task.py: signing the packages of a build.
pub mod Db
pub mod Create
pub mod Handout
pub mod Packages
pub mod Complete
pub mod Signed
pub mod Settled
pub mod Once
pub mod Verify
pub mod Released
mod Tests
