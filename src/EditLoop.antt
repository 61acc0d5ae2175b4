-- ===== src/EditLoop.antt =====
-- The loop of edit and validation (src/runtime/edit_loop.rs, src/runtime/validation.rs).
pub mod Validation
pub mod Run
pub mod Outcome
mod Tests
