-- ===== src/Channel.antt =====
-- The message channel of a team's agents (src/runtime/task_state/peer_channel.rs,
-- src/app/task_facade/peer.rs).
pub mod File
pub mod Post
pub mod Json
pub mod Sent
pub mod Posted
mod Tests
