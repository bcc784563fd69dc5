-- ===== src/Chunk/Writer.antt =====
-- src/chunk/writer.rs: writing a message as chunks.
pub mod Emit
pub mod Wire
pub mod Whole
pub mod Refuse
mod Tests
use librtmp.Common.{
  ℕ, zero, suc, ◌+◌, ◌-◌, ◌*◌, ◌/◌, ◌%◌, ◌^◌, Bool, true, false, not, ◌&&◌, Option, none, some,
  List, [], ◌∷◌, ◌++◌, ltb, leb, ◌==◌, if◌then◌else◌, length, take, drop,
}
use librtmp.Common.Result.{ok, ErrorCode, M, ◌>>◌, map_err, fail_if}
use librtmp.Bytes.{to_be32, to_le32, hton24}
use librtmp.Buffer.{Buffer, reserve}
use librtmp.Buffer.Codec.{put}
use librtmp.Chunk.State.{rtmp_wire_max_msg_length}
use librtmp.Chunk.Reader.{ChunkMessage}

abbrev pub extended_timestamp_marker : ℕ
extended_timestamp_marker = 0xFFFFFF

abbrev pub rtmp_max_csid : ℕ
rtmp_max_csid = 65599

abbrev pub rtmp_min_csid : ℕ
rtmp_min_csid = 2

-- The valid bytes of the basic header: `fmt << 6` on a `u8`, with the low bits.
unfoldable pub basic_header : ℕ → ℕ → List ℕ
basic_header csid fmt =
    let high = fmt * 2 ^ 6 % 256 in
    if ltb csid 64
    then (high + csid) ∷ []
    else if ltb csid 320
    then high ∷ ((csid - 64) % 256) ∷ []
    else (high + 1) ∷ ((csid - 64) % 256) ∷ ((csid - 64) / 2 ^ 8 % 256) ∷ []

unfoldable pub first_header_len : ℕ → ℕ → ℕ → ℕ
unfolding basic_header
first_header_len csid fmt ts_field =
    let basic_len = length (basic_header csid fmt) in
    let msg_hdr = if fmt == 0 then 11 else if fmt == 1 then 7 else if fmt == 2 then 3 else 0 in
    let ext = if ltb fmt 3 && leb extended_timestamp_marker ts_field then 4 else 0 in
    basic_len + msg_hdr + ext

-- `hdr[..n]`, as `write_first_header` fills it.
unfoldable pub first_header : ℕ → ℕ → ℕ → ℕ → ℕ → ℕ → List ℕ
unfolding basic_header hton24
first_header csid fmt ts_field msg_length msg_type_id msg_stream_id =
    let ext_ts = leb extended_timestamp_marker ts_field in
    basic_header csid fmt
    ++ (hton24 (if ext_ts then extended_timestamp_marker else ts_field)
        ++ ((if leb fmt 1 then hton24 msg_length ++ (msg_type_id ∷ []) else [])
            ++ ((if fmt == 0 then to_le32 msg_stream_id else [])
                ++ (if ext_ts then to_be32 ts_field else []))))

unfoldable pub write_first_header : ℕ → ℕ → ℕ → ℕ → ℕ → ℕ → M Buffer (Unit {0})
write_first_header csid fmt ts_field msg_length msg_type_id msg_stream_id = do
  fail_if (ltb 2 fmt) ErrorCode.internal
  fail_if (ltb rtmp_max_csid csid) ErrorCode.chunk
  fail_if (ltb csid rtmp_min_csid) ErrorCode.chunk
  put (first_header csid fmt ts_field msg_length msg_type_id msg_stream_id)

abbrev pub or_default : ℕ → ℕ
or_default chunk_size = if chunk_size == 0 then 128 else chunk_size

unfoldable pub chunk_body_len : ℕ → ℕ → ℕ → Bool → ℕ
unfolding basic_header
chunk_body_len csid payload_len chunk_size ext_ts =
    let cont_len = length (basic_header csid 3) in
    let continuation_chunks = (payload_len - 1) / or_default chunk_size in
    payload_len + continuation_chunks * (cont_len + (if ext_ts then 4 else 0))

-- The header of a continuation chunk, `chdr[..chdr_len]`.
unfoldable pub continuation : ℕ → Option ℕ → List ℕ
unfolding basic_header
continuation csid none = basic_header csid 3
continuation csid (some ts) = basic_header csid 3 ++ to_be32 ts

-- The `while let` over `payload.chunks(size)`: each chunk, and a header if another one follows. A
-- chunk takes a byte at least, so as many rounds as there are bytes are enough.
unfoldable pub write_chunks : ℕ → List ℕ → ℕ → List ℕ → M Buffer (Unit {0})
write_chunks zero chdr size payload b = (b, ok tt)
write_chunks (suc fuel) chdr size [] b = (b, ok tt)
write_chunks (suc fuel) chdr size (x ∷ xs) b =
    let more =
      (do put (take size (x ∷ xs)); put chdr; write_chunks fuel chdr size (drop size (x ∷ xs))) b in
    if leb (length (x ∷ xs)) size then put (x ∷ xs) b else more

abbrev pub is_some {ℓ} : {A : Type ℓ} → Option A → Bool
is_some none = false
is_some (some a) = true

unfoldable pub write_chunk_body : ℕ → List ℕ → ℕ → Option ℕ → M Buffer (Unit {0})
write_chunk_body csid payload chunk_size ext_ts = do
  fail_if (ltb rtmp_max_csid csid) ErrorCode.chunk
  fail_if (ltb csid rtmp_min_csid) ErrorCode.chunk
  map_err ErrorCode.internal
      (reserve (chunk_body_len csid (length payload) (or_default chunk_size) (is_some ext_ts)))
  write_chunks (length payload) (continuation csid ext_ts) (or_default chunk_size) payload

-- `chunk_write` for a chunk size that is not 0.
unfoldable pub chunk_write_sized : ChunkMessage → List ℕ → ℕ → ℕ → M Buffer (Unit {0})
chunk_write_sized msg payload payload_len chunk_size = do
  fail_if (ltb rtmp_max_csid msg.csid) ErrorCode.chunk
  fail_if (ltb msg.csid rtmp_min_csid) ErrorCode.chunk
  fail_if (not (msg.fmt == 0)) ErrorCode.internal
  fail_if (ltb rtmp_wire_max_msg_length msg.msg_length) ErrorCode.internal
  fail_if (not (payload_len == msg.msg_length)) ErrorCode.internal
  fail_if (ltb (length payload) payload_len) ErrorCode.internal
  let ext_ts = leb extended_timestamp_marker msg.timestamp
  map_err ErrorCode.internal (
      reserve (
        first_header_len msg.csid 0 msg.timestamp
        + chunk_body_len msg.csid payload_len chunk_size ext_ts))
  write_first_header msg.csid 0 msg.timestamp msg.msg_length msg.msg_type_id msg.msg_stream_id
  write_chunk_body msg.csid (take payload_len payload) chunk_size
      (if ext_ts then some msg.timestamp else none)

unfoldable pub chunk_write : ChunkMessage → List ℕ → ℕ → ℕ → M Buffer (Unit {0})
chunk_write msg payload payload_len chunk_size =
    chunk_write_sized msg payload payload_len (or_default chunk_size)

unfoldable pub chunk_write_extended_timestamp : ℕ → M Buffer (Unit {0})
chunk_write_extended_timestamp timestamp = do put ((3 * 2 ^ 6 + 2) ∷ []); put (to_be32 timestamp)
