-- ===== src/Ledger.antt =====
-- The ledger of the reads of a pulse (src/tools/pulse_ledger.rs).
pub mod Reads
pub mod Found
mod Tests
