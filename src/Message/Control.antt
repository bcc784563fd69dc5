-- ===== src/Message/Control.antt =====
-- src/message/control.rs: the payloads of the protocol control messages.
pub mod RoundTrip
mod Tests
use librtmp.Common.{
  ℕ, ◌/◌, ◌%◌, ◌^◌, ◌*◌, ◌+◌, min, Bool, true, false, ◌&&◌, ◌||◌, not, Option, none, some, List, [],
  ◌∷◌, ltb, leb, ◌==◌, if◌then◌else◌, length, drop,
}
use librtmp.Common.Result.{Result, ok, err, ErrorCode, M, ◌>>◌, ◌>>=◌, pure}
use librtmp.Bytes.{at, to_be16, to_be32, ntoh32}
use librtmp.Buffer.{Buffer, write}
use librtmp.Buffer.Codec.{put}

abbrev pub uctrl_stream_begin : ℕ
uctrl_stream_begin = 0x00

abbrev pub uctrl_stream_eof : ℕ
uctrl_stream_eof = 0x01

abbrev pub uctrl_set_buffer_length : ℕ
uctrl_set_buffer_length = 0x03

abbrev pub uctrl_ping_request : ℕ
uctrl_ping_request = 0x06

abbrev pub uctrl_ping_response : ℕ
uctrl_ping_response = 0x07

abbrev pub min_chunk_size : ℕ
min_chunk_size = 128

abbrev pub max_peer_chunk_size : ℕ
max_peer_chunk_size = 0x00FF_FFFF

abbrev pub min_window_ack_size : ℕ
min_window_ack_size = 1024

unfoldable pub write_set_chunk_size : ℕ → M Buffer (Unit {0})
write_set_chunk_size chunk_size = put (to_be32 chunk_size)

unfoldable pub write_abort_message : ℕ → M Buffer (Unit {0})
write_abort_message csid = put (to_be32 csid)

unfoldable pub write_acknowledgement : ℕ → M Buffer (Unit {0})
write_acknowledgement sequence_number = put (to_be32 sequence_number)

unfoldable pub write_window_ack_size : ℕ → M Buffer (Unit {0})
write_window_ack_size window_size = put (to_be32 window_size)

unfoldable pub write_set_peer_bandwidth : ℕ → ℕ → M Buffer (Unit {0})
write_set_peer_bandwidth window_size limit_type = do
  put (to_be32 window_size)
  put (limit_type ∷ [])

unfoldable pub write_user_control_stream_begin : ℕ → M Buffer (Unit {0})
write_user_control_stream_begin stream_id = do
  put (to_be16 uctrl_stream_begin)
  put (to_be32 stream_id)

unfoldable pub write_user_control_stream_eof : ℕ → M Buffer (Unit {0})
write_user_control_stream_eof stream_id = do put (to_be16 uctrl_stream_eof); put (to_be32 stream_id)

unfoldable pub write_user_control_set_buffer_length : ℕ → ℕ → M Buffer (Unit {0})
write_user_control_set_buffer_length stream_id ms = do
  put (to_be16 uctrl_set_buffer_length)
  put (to_be32 stream_id)
  put (to_be32 ms)

unfoldable pub write_user_control_ping_request : ℕ → M Buffer (Unit {0})
write_user_control_ping_request timestamp = do
  put (to_be16 uctrl_ping_request)
  put (to_be32 timestamp)

unfoldable pub write_user_control_ping_response : ℕ → M Buffer (Unit {0})
write_user_control_ping_response timestamp = do
  put (to_be16 uctrl_ping_response)
  put (to_be32 timestamp)

-- `cs & 0x8000_0000 != 0`, for a `u32`.
abbrev pub top_bit : ℕ → Bool
top_bit cs = leb (2 ^ 31) cs

unfoldable pub read_set_chunk_size : List ℕ → Result ℕ
read_set_chunk_size payload =
    if ltb (length payload) 4
    then err ErrorCode.protocol
    else (let cs = ntoh32 payload in
        if ltb cs min_chunk_size || top_bit cs
        then err ErrorCode.protocol
        else ok (min cs max_peer_chunk_size))

unfoldable pub read_abort_message : List ℕ → Result ℕ
read_abort_message payload =
    if ltb (length payload) 4 then err ErrorCode.protocol else ok (ntoh32 payload)

unfoldable pub read_acknowledgement_size : List ℕ → Result ℕ
read_acknowledgement_size payload =
    if ltb (length payload) 4 then err ErrorCode.protocol else ok (ntoh32 payload)

unfoldable pub read_window_ack_size : List ℕ → Result ℕ
read_window_ack_size payload =
    if ltb (length payload) 4
    then err ErrorCode.protocol
    else (let win = ntoh32 payload in
        if ltb 0 win && ltb win min_window_ack_size then err ErrorCode.protocol else ok win)

unfoldable pub read_set_peer_bandwidth : List ℕ → Result (ℕ × ℕ)
read_set_peer_bandwidth payload =
    if ltb (length payload) 5 then err ErrorCode.protocol else ok (ntoh32 payload, at payload 4)

-- The event type, its first parameter, and the second one if it was asked for and is there.
unfoldable pub read_user_control : List ℕ → Bool → Result (ℕ × ℕ × Option ℕ)
read_user_control payload param2 =
    if ltb (length payload) 6
    then err ErrorCode.protocol
    else ok (
      at payload 0 * 2 ^ 8 + at payload 1,
      ntoh32 (drop 2 payload),
      (if param2 && leb 10 (length payload) then some (ntoh32 (drop 6 payload)) else none),
    )
