-- ===== src/Chunk/Reader.antt =====
-- src/chunk/reader.rs: reading one chunk, and the message that it completes.
-- Phase 1 (Reader/Peek) only looks at the unread bytes and the registry; phases 2 and 3 below
-- consume the bytes and update the stream.
pub mod Peek
pub mod Facts
pub mod Consume
pub mod Begin
pub mod Run
pub mod Take
pub mod Outcome
pub mod Took
pub mod Semantics
pub mod Owned
pub mod Reach
pub mod Loop
mod Tests
use librtmp.Common.{
  ℕ, suc, ◌+◌, ◌-◌, ◌*◌, ◌%◌, ◌^◌, min, Bool, true, false, not, ◌&&◌, ◌||◌, Option, none, some,
  List, [], ◌∷◌, ltb, leb, ◌==◌, if◌then◌else◌, length,
}
use librtmp.Common.Result.{
  Result, ok, err, ErrorCode, M, ◌>>=◌, ◌>>◌, map_err, set_err, discard, pure, fail, fail_if,
}
use librtmp.Bytes.{at, ntoh32}
use librtmp.Buffer.{Buffer, available, peek, drain, read, write, resize, take_out}
use librtmp.Buffer
use librtmp.Chunk.State.{
  ChunkStream, ChunkRegistry, get, find_slot, get_or_create_index, stream_at, modify_stream,
  release_stream_reassembly, release_reassembly_bytes, note_reassembly_growth,
  set_stream_reassembling,
}
use Peek.{Plan, Peeked, go, wait, reject, peek_chunk, budget_exceeded, be24_at}

pub record ChunkMessage : Type 0 where
  pub csid : ℕ
  pub fmt : ℕ
  pub timestamp : ℕ
  pub msg_length : ℕ
  pub msg_type_id : ℕ
  pub msg_stream_id : ℕ
  pub is_complete : Bool

-- The buffer and the registry that `chunk_read` borrows.
pub record Input : Type 0 where
  pub buf : Buffer
  pub reg : ChunkRegistry

-- `Ok(rc)`, with `msg` as it is then, and the bytes that `payload` points at if it was set.
pub record ReadResult : Type 0 where
  pub rc : ℕ
  pub msg : ChunkMessage
  pub payload : Option (List ℕ)

abbrev into_buf {ℓ} : {A : Type ℓ} → ChunkRegistry → Buffer × Result A → Input × Result A
into_buf reg (b, r) = (record { buf = b; reg = reg }, r)

abbrev pub on_buf {ℓ} : {A : Type ℓ} → M Buffer A → M Input A
on_buf m i = into_buf i.reg (m i.buf)

abbrev into_reg {ℓ} : {A : Type ℓ} → Buffer → ChunkRegistry × Result A → Input × Result A
into_reg b (reg, r) = (record { buf = b; reg = reg }, r)

abbrev pub on_reg {ℓ} : {A : Type ℓ} → M ChunkRegistry A → M Input A
on_reg m i = into_reg i.buf (m i.reg)

-- A change of the registry that cannot fail.
abbrev pub update : (ChunkRegistry → ChunkRegistry) → M Input (Unit {0})
update f i = (record i { reg = f i.reg }, ok tt)

-- The fields of a message header; those that the format lacks are 0.
pub record Header : Type 0 where
  pub timestamp : ℕ
  pub msg_length : ℕ
  pub msg_type_id : ℕ
  pub msg_stream_id : ℕ

-- The `match fmt` of phase 2.
unfoldable pub read_header : ℕ → M Buffer Header
read_header fmt =
    if fmt == 0
    then (do
      mh ← map_err ErrorCode.io (read 11)
      pure (record {
        timestamp = be24_at mh 0;
        msg_length = be24_at mh 3;
        msg_type_id = at mh 6;
        msg_stream_id = at mh 7 + at mh 8 * 2 ^ 8 + at mh 9 * 2 ^ 16 + at mh 10 * 2 ^ 24;
      }))
    else if fmt == 1
    then (do
      mh ← map_err ErrorCode.io (read 7)
      pure (record {
        timestamp = be24_at mh 0;
        msg_length = be24_at mh 3;
        msg_type_id = at mh 6;
        msg_stream_id = 0;
      }))
    else if fmt == 2
    then (do
      mh ← map_err ErrorCode.io (read 3)
      pure
          (record { timestamp = be24_at mh 0; msg_length = 0; msg_type_id = 0; msg_stream_id = 0 }))
    else if fmt == 3
    then pure (record { timestamp = 0; msg_length = 0; msg_type_id = 0; msg_stream_id = 0 })
    else fail ErrorCode.chunk

unfoldable pub read_ext_timestamp : Bool → ℕ → M Buffer ℕ
read_ext_timestamp true timestamp = do ts_buf ← map_err ErrorCode.io (read 4); pure (ntoh32 ts_buf)
read_ext_timestamp false timestamp = pure timestamp

-- `buf.drain(n)`
abbrev pub pass : ℕ → M Buffer (Unit {0})
pass n b = (drain n b, ok tt)

-- Phase 2: the header, with its final timestamp.
unfoldable pub consume_header : Plan → M Buffer Header
unfolding read_header read_ext_timestamp
consume_header p = do
  pass p.header_size
  h ← read_header p.fmt
  final_timestamp ← read_ext_timestamp p.ext_ts h.timestamp
  pure (record h { timestamp = final_timestamp })

-- `fmt` 0 and 1 drop a message that was left unfinished.
unfoldable pub restart : ℕ → ℕ → ChunkRegistry → ChunkRegistry
restart fmt idx reg =
    if leb fmt 1
    then modify_stream idx
        (λ s. record s {
          reassembly_bytes_read = 0;
          reassembly_buf = Buffer.reset s.reassembly_buf;
        })
        (release_stream_reassembly idx reg).0
    else reg

abbrev pub wrapping_add : ℕ → ℕ → ℕ
wrapping_add a b = (a + b) % 2 ^ 32

-- The header fields of the stream behind this chunk's header.
unfoldable pub apply_header : ℕ → Bool → Header → ChunkStream → ChunkStream
apply_header fmt ext_ts h s =
    if fmt == 0
    then record s {
      has_message_header = true;
      type0_timestamp = h.timestamp;
      type0_msg_length = h.msg_length;
      type0_msg_type_id = h.msg_type_id;
      type0_msg_stream_id = h.msg_stream_id;
      type0_ext_ts = ext_ts;
      last_delta = h.timestamp;
    }
    else if fmt == 1
    then record s {
      has_message_header = true;
      type0_timestamp = wrapping_add s.type0_timestamp h.timestamp;
      type0_msg_length = h.msg_length;
      type0_msg_type_id = h.msg_type_id;
      type0_ext_ts = ext_ts;
      last_delta = h.timestamp;
    }
    else if fmt == 2
    then record s {
      type0_timestamp = wrapping_add s.type0_timestamp h.timestamp;
      type0_ext_ts = ext_ts;
      last_delta = h.timestamp;
    }
    else if fmt == 3 && s.reassembly_bytes_read == 0
    then record s { type0_timestamp = wrapping_add s.type0_timestamp s.last_delta }
    else s

-- Formats 2 and 3 cannot start on a stream that has had no full header.
unfoldable pub lacks_header : ℕ → ChunkStream → Bool
lacks_header fmt s =
    leb 2 fmt && (leb fmt 3 && (s.reassembly_bytes_read == 0 && not s.has_message_header))

unfoldable pub chunk_part : ChunkStream → ℕ
chunk_part s = min (s.type0_msg_length - s.reassembly_bytes_read) s.chunk_size

-- Behind the write of a chunk's bytes to the reassembly buffer.
abbrev pub appended : List ℕ → Buffer × Result ℕ → ChunkStream → ChunkStream
appended bytes (b, ok _) s = record s {
  reassembly_buf = b;
  chunk_read_scratch = bytes;
  reassembly_bytes_read = wrapping_add s.reassembly_bytes_read (length bytes);
}
appended bytes (b, err _) s = record s { reassembly_buf = b; chunk_read_scratch = bytes }

-- The scratch space takes the bytes, and the reassembly buffer a copy of them.
unfoldable pub store : ℕ → List ℕ → M Input (Unit {0})
store idx bytes i =
    let w = write bytes (stream_at i.reg idx).reassembly_buf in
    set_err ErrorCode.chunk
      (discard (record i { reg = modify_stream idx (appended bytes w) i.reg }, w.1))

-- The chunk's bytes, read from the buffer and added to the message.
unfoldable pub read_part : ℕ → M Input (Unit {0})
unfolding chunk_part store
read_part idx i =
    (do
      let to_read = chunk_part (stream_at i.reg idx)
      update (
          modify_stream idx
            (λ s. record s { chunk_read_scratch = resize s.chunk_read_scratch to_read }))
      bytes ← on_buf (map_err ErrorCode.io (read to_read))
      store idx bytes
      update (note_reassembly_growth to_read))
      i

abbrev pub message_of : Plan → ChunkStream → ChunkMessage
message_of p s = record {
  csid = p.csid;
  fmt = p.fmt;
  timestamp = s.type0_timestamp;
  msg_length = s.type0_msg_length;
  msg_type_id = s.type0_msg_type_id;
  msg_stream_id = s.type0_msg_stream_id;
  is_complete = true;
}

-- The stream without its finished message, which `last_payload` now holds.
abbrev pub delivered : ChunkStream → ChunkStream
delivered s = record s {
  last_payload = (take_out s.reassembly_buf).1;
  reassembly_buf = (take_out s.reassembly_buf).0;
  reassembly_bytes_read = 0;
}

-- The end of `chunk_read` for a message that is complete.
unfoldable pub complete : Plan → ℕ → M Input ReadResult
complete p idx i =
    let s = stream_at i.reg idx in
    (
      record i {
        reg =
            release_reassembly_bytes (available s.reassembly_buf)
              (modify_stream idx delivered i.reg);
      },
      ok (record { rc = 1; msg = message_of p s; payload = some (take_out s.reassembly_buf).1 }),
    )

-- The end of `chunk_read`: the message is complete, or its next chunk is awaited.
unfoldable pub finish : Plan → ChunkMessage → ℕ → M Input ReadResult
unfolding complete
finish p msg idx i =
    let s = stream_at i.reg idx in
    let message_complete = leb s.type0_msg_length s.reassembly_bytes_read in
    let cleared = modify_stream idx (λ s. record s { chunk_read_scratch = [] }) i.reg in
    let marked = record i { reg = set_stream_reassembling idx (not message_complete) cleared } in
    if message_complete
    then complete p idx marked
    else (marked, ok (record { rc = 0; msg = record msg { is_complete = false }; payload = none }))

abbrev pub check : (ChunkRegistry → Bool) → M Input (Unit {0})
check test i = fail_if (test i.reg) ErrorCode.chunk i

-- Phases 2 and 3.
unfoldable pub take_chunk : Plan → ChunkMessage → M Input ReadResult
take_chunk p msg = do
  h ← on_buf (consume_header p)
  check (λ reg. budget_exceeded reg p.fmt (get reg p.csid) p.to_read)
  idx ← on_reg (get_or_create_index p.csid)
  update (restart p.fmt idx)
  check (λ reg. lacks_header p.fmt (stream_at reg idx))
  update (modify_stream idx (apply_header p.fmt p.ext_ts h))
  read_part idx
  finish p msg idx

-- `chunk_read` behind phase 1: an early return leaves the buffer and the registry as they are.
abbrev pub after_peek : ChunkMessage → Peeked Plan → M Input ReadResult
after_peek msg wait i = (i, ok (record { rc = 0; msg = msg; payload = none }))
after_peek msg (reject e) i = (i, err e)
after_peek msg (go p) i = take_chunk p msg i

unfoldable pub chunk_read : ChunkMessage → M Input ReadResult
chunk_read msg i = after_peek msg (peek_chunk i.buf i.reg) i

-- `reg.get_mut(csid).map(|stream| std::mem::take(&mut stream.last_payload)).unwrap_or_default()`
abbrev pub take_last_payload : Option ℕ → ChunkRegistry → ChunkRegistry × List ℕ
take_last_payload none reg = (reg, [])
take_last_payload (some idx) reg =
    (modify_stream idx (λ s. record s { last_payload = [] }) reg, (stream_at reg idx).last_payload)

unfoldable pub owned_payload : ReadResult → M Input (ReadResult × List ℕ)
owned_payload r i =
    if r.rc == 1 && r.msg.is_complete
    then (let (reg, payload) = take_last_payload (find_slot i.reg r.msg.csid) i.reg in
        (record i { reg = reg }, ok (r, payload)))
    else (i, ok (r, []))

-- The count and the message are those of `chunk_read`; the list is the owned payload.
unfoldable pub chunk_read_owned : ChunkMessage → M Input (ReadResult × List ℕ)
chunk_read_owned msg = chunk_read msg >>= owned_payload
