-- ===== src/Editor.antt =====
-- The line editor of the input pane (src/ui/editor/mod.rs): its state, the edits, the prompt
-- history, undo and redo, and the keys that drive them.
pub mod Boundary
pub mod State
pub mod Edit
pub mod Recall
pub mod Keys
pub mod Safe
pub mod Total
pub mod Size
pub mod Bounded
pub mod Undo
pub mod Walk
mod Tests
