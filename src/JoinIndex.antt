-- ===== src/JoinIndex.antt =====
-- The index of agent handoffs (src/runtime/task_state/join_index.rs).
pub mod Index
pub mod Live
mod Tests
