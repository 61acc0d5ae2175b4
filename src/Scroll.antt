-- ===== src/Scroll.antt =====
-- The scroll offsets of the transcript, the inspector and the timeline (src/app/scroll.rs).
pub mod State
pub mod Range
mod Tests
