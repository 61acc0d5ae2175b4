-- ===== src/Team.antt =====
-- The tasks of a team of agents (src/app/subtask_orchestrator/mod.rs, src/runtime/session_task.rs).
pub mod Task
pub mod Store
pub mod Orchestrator
pub mod Join
pub mod Order
pub mod Spawned
pub mod Advance
pub mod Scheduled
pub mod Reached
pub mod Poll
pub mod Summaries
pub mod Posting
pub mod Handoff
mod Tests
