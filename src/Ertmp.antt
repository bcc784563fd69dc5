-- ===== src/Ertmp.antt =====
-- src/ertmp: the tag headers of Enhanced RTMP.
pub mod Fourcc
pub mod Exvideo
pub mod Exaudio
pub mod Modex
pub mod RoundTrip
mod Tests
