-- ===== src/Session/ControlMessages/Tests.antt =====
-- src/session/conn.rs: the control messages on a concrete connection.
use librtmp.Common.{none}
use librtmp.Chunk.State.{new}
use librtmp.Session.ControlMessages.{ControlConn}

abbrev fresh : ControlConn
fresh = record {
  chunk_reg = new;
  chunk_size = 128;
  active_chunk_size = 128;
  window_ack_size = 0;
  close_reason = none;
}
