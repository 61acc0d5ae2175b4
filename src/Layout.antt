-- ===== src/Layout.antt =====
-- The layout of the editor's text in rows of the terminal (src/ui/input_metrics.rs).
pub mod Wrap
pub mod Rows
pub mod Place
pub mod Agree
pub mod Inside
pub mod Cursor
pub mod InRow
pub mod Widths
pub mod Moves
pub mod Safe
mod Tests
