-- ===== src/Usage.antt =====
-- Token counts (src/usage.rs).
pub mod Tokens
pub mod Totals
mod Tests
