-- ===== src/History.antt =====
-- The message history of a conversation and how it is kept small (src/state/conversation/history.rs).
pub mod Message
pub mod Condense
pub mod Prune
pub mod Compact
pub mod Window
pub mod Turns
pub mod Anchor
pub mod Size
mod Tests
