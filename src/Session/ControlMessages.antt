-- ===== src/Session/ControlMessages.antt =====
-- src/session/conn.rs: what a connection does with a protocol control message of its peer. The fields
-- of `Conn` that these functions do not touch are left out, and so is the text for the log.
pub mod Keep
mod Tests
use librtmp.Common.{
  ℕ, Bool, true, false, not, Option, some, none, List, ltb, leb, ◌==◌, if◌then◌else◌, length, take,
}
use librtmp.Common.Result.{Result, ok, err, ErrorCode, M}
use librtmp.Bytes.{ntoh32}
use librtmp.Chunk.State.{ChunkRegistry, set_all_chunk_size, abort_stream}
use librtmp.Message.Control.{read_set_chunk_size, read_abort_message, read_window_ack_size}

abbrev pub rtmp_msg_set_chunk_size : ℕ
rtmp_msg_set_chunk_size = 0x01

abbrev pub rtmp_msg_abort_message : ℕ
rtmp_msg_abort_message = 0x02

abbrev pub rtmp_msg_window_ack_size : ℕ
rtmp_msg_window_ack_size = 0x05

-- `raw` in the text of the reason, if the payload has four bytes.
pub data CloseReason : Type 0 where
  invalid_set_chunk_size : Option ℕ → CloseReason
  other_reason : CloseReason

pub record ControlConn : Type 0 where
  pub chunk_reg : ChunkRegistry
  pub chunk_size : ℕ
  pub active_chunk_size : ℕ
  pub window_ack_size : ℕ
  pub close_reason : Option CloseReason

abbrev pub or_reason : Option CloseReason → CloseReason → Option CloseReason
or_reason none reason = some reason
or_reason (some old) reason = some old

-- `payload.get(..4).map(ntoh32)`
abbrev pub raw : List ℕ → Option ℕ
raw payload = if leb 4 (length payload) then some (ntoh32 (take 4 payload)) else none

unfoldable pub take_chunk_size : List ℕ → Result ℕ → M ControlConn (Unit {0})
take_chunk_size payload (ok cs) c =
    (record c { chunk_reg = set_all_chunk_size cs c.chunk_reg }, ok tt)
take_chunk_size payload (err e) c = (
  record c { close_reason = or_reason c.close_reason (invalid_set_chunk_size (raw payload)) },
  err e,
)

unfoldable pub take_abort : Result ℕ → ControlConn → ControlConn
take_abort (ok csid) c = record c { chunk_reg = abort_stream csid c.chunk_reg }
take_abort (err e) c = c

unfoldable pub take_window : Result ℕ → ControlConn → ControlConn
take_window (ok win) c = record c { window_ack_size = win }
take_window (err e) c = c

-- An acknowledgement and a peer bandwidth are read and forgotten, as is any other type.
unfoldable pub handle_control : ℕ → List ℕ → M ControlConn (Unit {0})
handle_control msg_type_id payload c =
    if msg_type_id == rtmp_msg_set_chunk_size
    then take_chunk_size payload (read_set_chunk_size payload) c
    else if msg_type_id == rtmp_msg_abort_message
    then ((if leb 4 (length payload) then take_abort (read_abort_message payload) c else c), ok tt)
    else if msg_type_id == rtmp_msg_window_ack_size
    then (
      (if leb 4 (length payload) then take_window (read_window_ack_size payload) c else c),
      ok tt,
    )
    else (c, ok tt)

unfoldable pub apply_chunk_size : ℕ → ControlConn → ControlConn
apply_chunk_size size c = record c {
  chunk_size = size;
  active_chunk_size = size;
  chunk_reg = set_all_chunk_size size c.chunk_reg;
}

unfoldable pub activate_announced_chunk_size : ControlConn → ControlConn
activate_announced_chunk_size c = record c { active_chunk_size = c.chunk_size }
