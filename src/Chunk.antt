-- ===== src/Chunk.antt =====
-- src/chunk: the chunk-stream registry, the chunk reader and the chunk writer.
pub mod State
pub mod Reader
pub mod Writer
pub mod RoundTrip
pub mod MediaOut
