-- ===== src/Index.antt =====
-- The index of the items in the sources of a workspace (src/tools/index.rs).
pub mod Items
pub mod Extract
pub mod Build
pub mod Owned
pub mod Chunks
pub mod Change
pub mod PerFile
pub mod Update
mod Tests
