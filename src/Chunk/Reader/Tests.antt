-- ===== src/Chunk/Reader/Tests.antt =====
-- src/chunk/reader.rs: the reader on concrete bytes.
use librtmp.Common.{ℕ, ◌≡◌, refl, some, true, false, List, [], ◌∷◌, length, All}
use librtmp.Common.Result.{ok, err, ErrorCode}
use librtmp.Bytes.{IsByte}
use librtmp.Buffer.{Buffer, from_slice, with_capacity, peek, available, write}
use librtmp.Buffer
use librtmp.Buffer.New.{
  from_slice-IsValid, peek-from_slice, peek-with_capacity, with_capacity-IsValid,
}
use librtmp.Bytes.Decide.{all_bytes_sound}
use librtmp.Chunk.State.{ChunkRegistry, new, get}
use librtmp.Chunk.State.Pending.{pending}
use librtmp.Chunk.State.Ops.{new-RegInv}
use librtmp.Chunk.Reader.{ChunkMessage, Input, ReadResult, chunk_read}
use librtmp.Chunk.Reader.Semantics.{
  InputInv, Outcome, chunk_read_err, chunk_read_ok, chunk_read_payload,
}
use librtmp.Chunk.Reader.Reach.{Reaches, start, next, arrive, read_chunk, Reaches-InputInv}

abbrev no_message : ChunkMessage
no_message = record {
  csid = 0;
  fmt = 0;
  timestamp = 0;
  msg_length = 0;
  msg_type_id = 0;
  msg_stream_id = 0;
  is_complete = false;
}

-- A whole message of two bytes on chunk stream 3, and a byte that follows it.
abbrev two_byte_chunk : List ℕ
two_byte_chunk = 3 ∷ 0 ∷ 0 ∷ 5 ∷ 0 ∷ 0 ∷ 2 ∷ 8 ∷ 1 ∷ 0 ∷ 0 ∷ 0 ∷ 65 ∷ 66 ∷ 7 ∷ []

abbrev received : List ℕ → Input
received bytes = record { buf = from_slice bytes; reg = new }

abbrev two_bytes : List ℕ
two_bytes = 65 ∷ 66 ∷ []

abbrev two_byte_message : ChunkMessage
two_byte_message = record {
  csid = 3;
  fmt = 0;
  timestamp = 5;
  msg_length = 2;
  msg_type_id = 8;
  msg_stream_id = 1;
  is_complete = true;
}

received-InputInv : (bytes : List ℕ) → All IsByte bytes → InputInv (received bytes)
received-InputInv bytes h = record {
  valid = from_slice-IsValid bytes;
  reg_inv = new-RegInv;
  bytes = rw (peek-from_slice bytes) h;
}

two_byte-InputInv : InputInv (received two_byte_chunk)
two_byte-InputInv = received-InputInv two_byte_chunk (all_bytes_sound two_byte_chunk refl)

two_byte_run : chunk_read no_message (received two_byte_chunk) ≡ (
  (chunk_read no_message (received two_byte_chunk)).0,
  ok (record { rc = 1; msg = two_byte_message; payload = some two_bytes }),
)
unfolding chunk_read librtmp.Chunk.Reader.Peek.peek_chunk librtmp.Chunk.Reader.Peek.peek_bytes
    available from_slice librtmp.Chunk.Reader.Peek.basic_header peek
    librtmp.Chunk.Reader.Peek.msg_field_size librtmp.Chunk.Reader.Peek.peek_stream
    librtmp.Chunk.Reader.Peek.ext_ts librtmp.Chunk.Reader.Peek.effective_length new
    librtmp.Chunk.Reader.Peek.budget_exceeded librtmp.Chunk.Reader.Peek.part_length get
    librtmp.Chunk.State.can_get_or_create librtmp.Chunk.Reader.take_chunk
    librtmp.Chunk.Reader.consume_header librtmp.Buffer.compact librtmp.Buffer.drain
    librtmp.Buffer.ensure_capacity librtmp.Buffer.make_room librtmp.Buffer.make_room_at
    librtmp.Buffer.read librtmp.Buffer.reset librtmp.Buffer.rewind librtmp.Buffer.space
    librtmp.Buffer.take_out with_capacity librtmp.Buffer.write librtmp.Bytes.ntoh32
    librtmp.Chunk.Reader.apply_header librtmp.Chunk.Reader.chunk_part librtmp.Chunk.Reader.complete
    librtmp.Chunk.Reader.finish librtmp.Chunk.Reader.lacks_header
    librtmp.Chunk.Reader.read_ext_timestamp librtmp.Chunk.Reader.read_header
    librtmp.Chunk.Reader.read_part librtmp.Chunk.Reader.restart librtmp.Chunk.Reader.store
    librtmp.Chunk.State.create librtmp.Chunk.State.default_stream librtmp.Chunk.State.find_slot
    librtmp.Chunk.State.fresh_stream librtmp.Chunk.State.get_or_create_index
    librtmp.Chunk.State.note_reassembly_growth librtmp.Chunk.State.release_reassembly_bytes
    librtmp.Chunk.State.release_stream_reassembly librtmp.Chunk.State.set_stream_reassembling
two_byte_run = refl

-- A header of format 3 on a stream that has had none.
abbrev lone_continuation : List ℕ
lone_continuation = 195 ∷ []

lone_continuation-InputInv : InputInv (received lone_continuation)
lone_continuation-InputInv =
    received-InputInv lone_continuation (all_bytes_sound lone_continuation refl)

lone_continuation_run :
    chunk_read no_message (received lone_continuation)
    ≡ (received lone_continuation, err ErrorCode.chunk)
unfolding chunk_read librtmp.Chunk.Reader.Peek.peek_chunk librtmp.Chunk.Reader.Peek.peek_bytes
    available from_slice librtmp.Chunk.Reader.Peek.basic_header peek
    librtmp.Chunk.Reader.Peek.msg_field_size librtmp.Chunk.Reader.Peek.peek_stream
    librtmp.Chunk.Reader.Peek.ext_ts librtmp.Chunk.Reader.Peek.effective_length new
    librtmp.Chunk.Reader.Peek.budget_exceeded librtmp.Chunk.Reader.Peek.part_length get
    librtmp.Chunk.State.can_get_or_create librtmp.Chunk.Reader.take_chunk
    librtmp.Chunk.Reader.consume_header librtmp.Buffer.compact librtmp.Buffer.drain
    librtmp.Buffer.ensure_capacity librtmp.Buffer.make_room librtmp.Buffer.make_room_at
    librtmp.Buffer.read librtmp.Buffer.reset librtmp.Buffer.rewind librtmp.Buffer.space
    librtmp.Buffer.take_out with_capacity librtmp.Buffer.write librtmp.Bytes.ntoh32
    librtmp.Chunk.Reader.apply_header librtmp.Chunk.Reader.chunk_part librtmp.Chunk.Reader.complete
    librtmp.Chunk.Reader.finish librtmp.Chunk.Reader.lacks_header
    librtmp.Chunk.Reader.read_ext_timestamp librtmp.Chunk.Reader.read_header
    librtmp.Chunk.Reader.read_part librtmp.Chunk.Reader.restart librtmp.Chunk.Reader.store
    librtmp.Chunk.State.create librtmp.Chunk.State.default_stream librtmp.Chunk.State.find_slot
    librtmp.Chunk.State.fresh_stream librtmp.Chunk.State.get_or_create_index
    librtmp.Chunk.State.note_reassembly_growth librtmp.Chunk.State.release_reassembly_bytes
    librtmp.Chunk.State.release_stream_reassembly librtmp.Chunk.State.set_stream_reassembling
lone_continuation_run = refl

chunk_read_ok_example : Outcome no_message (received two_byte_chunk) (
  (chunk_read no_message (received two_byte_chunk)).0,
  ok (record { rc = 1; msg = two_byte_message; payload = some two_bytes }),
)
chunk_read_ok_example =
    chunk_read_ok no_message (received two_byte_chunk) two_byte-InputInv
      (chunk_read no_message (received two_byte_chunk)).0
      (record { rc = 1; msg = two_byte_message; payload = some two_bytes }) two_byte_run

chunk_read_err_example : received lone_continuation ≡ received lone_continuation
chunk_read_err_example =
    chunk_read_err no_message (received lone_continuation) lone_continuation-InputInv
      (received lone_continuation) ErrorCode.chunk lone_continuation_run

chunk_read_payload_example :
    (length two_bytes ≡ 2)
    × (pending (chunk_read no_message (received two_byte_chunk)).0.reg 3 ≡ [])
chunk_read_payload_example =
    chunk_read_payload no_message (received two_byte_chunk) two_byte-InputInv
      (chunk_read no_message (received two_byte_chunk)).0
      (record { rc = 1; msg = two_byte_message; payload = some two_bytes }) two_bytes two_byte_run
      refl

-- A connection that has received the chunk and read it.
abbrev empty_buffer : Buffer
empty_buffer = with_capacity 0

abbrev connected : Input
connected = record { buf = empty_buffer; reg = new }

abbrev arrived : Input
arrived = record { buf = (write two_byte_chunk empty_buffer).0; reg = new }

arrived_and_read : Reaches empty_buffer (chunk_read no_message arrived).0
arrived_and_read =
    next (next start (arrive connected two_byte_chunk (all_bytes_sound two_byte_chunk refl)))
      (read_chunk arrived no_message)

Reaches-InputInv_example : InputInv (chunk_read no_message arrived).0
Reaches-InputInv_example =
    Reaches-InputInv empty_buffer (with_capacity-IsValid 0) (rw (peek-with_capacity 0) tt)
      (chunk_read no_message arrived).0 arrived_and_read
