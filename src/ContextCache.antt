-- ===== src/ContextCache.antt =====
-- The cache of files read for the context (src/runtime/context_cache.rs).
pub mod Cache
pub mod Account
pub mod Read
mod Tests
