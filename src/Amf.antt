-- ===== src/Amf.antt =====
-- src/amf: the Action Message Format, as far as the library reads and writes it.
pub mod Amf0
pub mod Amf3
