-- ===== src/Amf/Amf0.antt =====
-- src/amf/amf0.rs: the AMF0 encoder and decoder. An `f64` is its 64-bit pattern, on which
-- `to_bits` and `from_bits` are the identity, and a `&str` is the list of its bytes.
pub mod Marker
pub mod Write
pub mod Utf8
pub mod Read
pub mod Skip
pub mod Atoms
pub mod Value
pub mod SkipValue
pub mod RoundTrip
mod Tests
