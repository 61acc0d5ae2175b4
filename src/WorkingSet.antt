-- ===== src/WorkingSet.antt =====
-- The working-set record of a task (src/runtime/task_state/working_set.rs).
pub mod Record
pub mod Kept
mod Tests
