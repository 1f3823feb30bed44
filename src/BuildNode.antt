-- ===== src/BuildNode.antt =====
-- alws/crud/build_node.py: the queue of build tasks, from which the build nodes take work and to
-- which they report it.
pub mod Db
pub mod Available
pub mod Handout
pub mod Done
pub mod Process
pub mod Built
pub mod Life
pub mod Unblocked
pub mod FastFail
pub mod Refused
pub mod Restart
pub mod Restarted
pub mod RestartedRows
mod Tests
