-- ===== src/PrefixCache.antt =====
-- The cache of shared prompt prefixes (src/runtime/multiplex_prefix.rs).
pub mod Manager
pub mod Fifo
mod Tests
