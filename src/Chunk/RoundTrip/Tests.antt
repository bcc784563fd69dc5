-- ===== src/Chunk/RoundTrip/Tests.antt =====
-- src/chunk: a message of two chunks, written and read.
use librtmp.Common.{
  ℕ, ◌+◌, ◌≡◌, refl, sym, ◌∙◌, ◌≤◌, ◌<◌, true, false, some, List, [], ◌∷◌, ◌++◌, arith, length,
  take, drop, replicate,
}
use librtmp.Common.Result.{ok}
use librtmp.Buffer.{Buffer, with_capacity, from_slice, available, peek, buffer_max_size}
use librtmp.Buffer.New.{with_capacity-IsValid, from_slice-IsValid, peek-from_slice}
use librtmp.Chunk.State.{new, get, find_slot, can_get_or_create}
use librtmp.Chunk.State.Ops.{new-RegInv}
use librtmp.Chunk.Reader.{ChunkMessage, Input, ReadResult}
use librtmp.Bytes.Decide.{all_bytes_sound}
use librtmp.Chunk.Reader.Semantics.{InputInv}
use librtmp.Chunk.Reader.Loop.{Ends, next_message, next_message-Ends}
use librtmp.Chunk.Writer.{chunk_write, chunk_body_len, basic_header, first_header_len}
use librtmp.Chunk.Writer.Whole.{Writable, wire_len, chunk_write_lem}
use librtmp.Chunk.RoundTrip.Next.{Delivered}
use librtmp.Chunk.RoundTrip.Start.{Accepts}
use librtmp.Chunk.RoundTrip.Whole.{chunk_write-next_message}

-- One chunk holds 128 bytes.
abbrev long_message : ChunkMessage
long_message = record {
  csid = 70;
  fmt = 0;
  timestamp = 0x1000000;
  msg_length = 130;
  msg_type_id = 9;
  msg_stream_id = 1;
  is_complete = false;
}

long_payload : List ℕ
long_payload = replicate 130 7

length-long_payload : length long_payload ≡ 130
unfolding long_payload
length-long_payload = refl

abbrev out : Buffer
out = with_capacity 0

owned_out : out.owned ≡ true
unfolding with_capacity
owned_out = refl

long_room : length (peek out) + wire_len long_message 130 0 ≤ buffer_max_size
unfolding peek with_capacity chunk_body_len basic_header first_header_len
long_room = omega arith

long-Writable : Writable long_message long_payload 130
long-Writable = record {
  low = omega arith;
  high = omega arith;
  absolute = refl;
  short = omega arith;
  whole = refl;
  there = omega (arith, length-long_payload);
}

abbrev written : Buffer
written = (chunk_write long_message long_payload 130 0 out).0

long_written : chunk_write long_message long_payload 130 0 out ≡ (written, ok tt)
long_written =
    let (c, wire, run, _, _, _, _) =
      chunk_write_lem long_message long_payload 130 0 out long-Writable (with_capacity-IsValid 0)
        owned_out long_room in
    run ∙ (λ i. ((sym run i).0, ok tt))

-- Two more bytes follow.
abbrev arrived : Input
arrived = record {
  buf = from_slice (drop (length (peek out)) (peek written) ++ (3 ∷ 4 ∷ []));
  reg = new;
}

arrived-Accepts : Accepts new 70 130 128
unfolding new get find_slot can_get_or_create
arrived-Accepts = record {
  chunk = refl;
  longest = omega arith;
  room = omega arith;
  can_open = refl;
}

abbrev no_message : ChunkMessage
no_message = record {
  csid = 0;
  fmt = 0;
  timestamp = 0;
  msg_length = 0;
  msg_type_id = 0;
  msg_stream_id = 0;
  is_complete = false;
}

chunk_write-next_message_example :
    (j : Input) × (res : ReadResult) × (next_message 131 no_message arrived
      ≡ some (j, ok (res, take 130 long_payload)))
    × Delivered long_message (take 130 long_payload) (3 ∷ 4 ∷ []) arrived j res
chunk_write-next_message_example =
    chunk_write-next_message long_message long_payload 130 0 out written (3 ∷ 4 ∷ []) arrived
      no_message 131 long-Writable (omega arith) (omega arith) (with_capacity-IsValid 0) owned_out
      long_room long_written
      (peek-from_slice (drop (length (peek out)) (peek written) ++ (3 ∷ 4 ∷ []))) new-RegInv
      (from_slice-IsValid (drop (length (peek out)) (peek written) ++ (3 ∷ 4 ∷ []))) arrived-Accepts
      (omega arith)

abbrev three_bytes : Input
three_bytes = record { buf = from_slice (3 ∷ 0 ∷ 0 ∷ []); reg = new }

three_available : available three_bytes.buf < 4
unfolding available from_slice
three_available = omega arith

three-InputInv : InputInv three_bytes
three-InputInv = record {
  valid = from_slice-IsValid (3 ∷ 0 ∷ 0 ∷ []);
  reg_inv = new-RegInv;
  bytes = rw (peek-from_slice (3 ∷ 0 ∷ 0 ∷ [])) (all_bytes_sound (3 ∷ 0 ∷ 0 ∷ []) refl);
}

next_message-Ends_example : Ends no_message three_bytes (next_message 4 no_message three_bytes)
next_message-Ends_example =
    next_message-Ends 4 no_message three_bytes three-InputInv three_available
