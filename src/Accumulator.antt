-- ===== src/Accumulator.antt =====
-- The accumulator of streamed tool calls (src/runtime/delta_accumulator.rs): partial arguments kept
-- within bounds, the memory watermark, and the JSON prefix test.
pub mod Json
pub mod State
pub mod Ops
pub mod Nesting
pub mod Stored
pub mod Invariant
pub mod Errors
pub mod Memory
mod Tests
