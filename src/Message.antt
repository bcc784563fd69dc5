-- ===== src/Message.antt =====
-- src/message: the payloads of RTMP messages.
pub mod Control
