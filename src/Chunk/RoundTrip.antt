-- ===== src/Chunk/RoundTrip.antt =====
-- src/chunk: what chunk/writer.rs writes, chunk/reader.rs reads back.
pub mod Header
pub mod First
pub mod Next
pub mod Step
pub mod Continue
pub mod Rest
pub mod Finish
pub mod Begin
pub mod Start
pub mod Whole
mod Tests
