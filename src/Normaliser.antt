-- ===== src/Normaliser.antt =====
-- The normaliser of streamed text, which takes tool calls in tags out of it
-- (src/api/stream/text_normaliser.rs).
pub mod Search
pub mod Json
pub mod Tags
pub mod Loop
pub mod Ends
pub mod Finds
pub mod Panics
pub mod Calls
pub mod Crash
pub mod Written
pub mod Trip
mod Tests
