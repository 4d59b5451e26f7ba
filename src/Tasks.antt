-- ===== src/Tasks.antt =====
-- xtask and bench: the developer's tasks.
pub mod Tuning
pub mod Bench
pub mod Steps
pub mod Shell
pub mod Runner
pub mod Counting
pub mod Env
pub mod Ordering
pub mod Fixtures
pub mod Entry
pub mod Scaling
pub mod Build
pub mod Load
pub mod Stat
pub mod Picking
pub mod Reverting
pub mod Restoring
pub mod Examples
