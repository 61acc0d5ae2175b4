-- ===== src/HeaderCache.antt =====
-- The cache of task headers (src/runtime/task_state/header_cache.rs).
pub mod Lru
pub mod Bounds
pub mod Transparent
mod Tests
