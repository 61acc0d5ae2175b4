-- ===== src/Config.antt =====
-- The layers of the configuration and their merging (src/config/load/mod.rs, src/config/load/merge.rs).
pub mod Layer
pub mod Load
pub mod Guarded
mod Tests
