-- ===== src/Media.antt =====
-- src/media, src/ertmp: what is read off the payload of a media message.
pub mod Modex
