-- ===== src/TestTasks.antt =====
-- alws/crud/test.py: the tasks that the test system runs on the packages of a build.
pub mod Db
pub mod Ordered
pub mod Batch
pub mod Create
pub mod Latest
pub mod Complete
pub mod Verdict
mod Tests
