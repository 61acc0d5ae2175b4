-- ===== src/Sse.antt =====
-- The parser of server-sent events (src/api/stream.rs, src/api/stream/sse_framing.rs): the framing of
-- a byte stream that arrives in chunks, and the fields of a frame.
pub mod Bytes
pub mod Delimiter
pub mod Frame
pub mod Parser
pub mod Drain
pub mod Chunks
pub mod Fields
mod Tests
