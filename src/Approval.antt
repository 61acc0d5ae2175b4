-- ===== src/Approval.antt =====
-- Approval of capabilities (src/runtime/approval.rs).
pub mod Policy
pub mod Rules
mod Tests
