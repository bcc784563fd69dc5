-- ===== src/Chunk/Writer/Tests.antt =====
-- src/chunk/writer.rs: the writer on concrete messages.
use librtmp.Common.{
  ℕ, ◌+◌, ◌≤◌, ◌≡◌, refl, ◌⊎◌, inl, inr, true, false, List, [], ◌∷◌, ◌++◌, arith, length, take,
}
use librtmp.Common.Result.{ok, err, ErrorCode}
use librtmp.Buffer.{Buffer, with_capacity, peek, buffer_max_size}
use librtmp.Buffer.Wf.{IsValid}
use librtmp.Buffer.New.{with_capacity-IsValid}
use librtmp.Chunk.Reader.{ChunkMessage}
use librtmp.Chunk.Writer.{
  basic_header, first_header_len, first_header, chunk_body_len, continuation, chunk_write,
}
use librtmp.Chunk.Writer.Emit.{defragment}
use librtmp.Chunk.Writer.Whole.{Writable, wire_len, ext_of, chunk_write_lem}
use librtmp.Chunk.Writer.Refuse.{chunk_write_refuses}

abbrev out : Buffer
out = with_capacity 0

abbrev five : List ℕ
five = 1 ∷ 2 ∷ 3 ∷ 4 ∷ 5 ∷ []

abbrev five_message : ChunkMessage
five_message = record {
  csid = 3;
  fmt = 0;
  timestamp = 5;
  msg_length = 5;
  msg_type_id = 8;
  msg_stream_id = 1;
  is_complete = false;
}

owned_out : out.owned ≡ true
unfolding with_capacity
owned_out = refl

body_room : length (peek out) + chunk_body_len 3 5 2 false ≤ buffer_max_size
unfolding peek with_capacity chunk_body_len basic_header
body_room = omega arith

message_room : length (peek out) + wire_len five_message 5 2 ≤ buffer_max_size
unfolding peek with_capacity chunk_body_len basic_header first_header_len
message_room = omega arith

five-Writable : Writable five_message five 5
five-Writable = record {
  low = omega arith;
  high = omega arith;
  absolute = refl;
  short = omega arith;
  whole = refl;
  there = omega arith;
}

chunk_write_lem_example :
    (c : Buffer) × (wire : List ℕ) × (chunk_write five_message five 5 2 out ≡ (c, ok tt))
    × IsValid c
    × (peek c ≡ peek out ++ (first_header 3 0 5 5 8 1 ++ wire))
    × (length (first_header 3 0 5 5 8 1 ++ wire) ≡ wire_len five_message 5 2)
    × (defragment 5 (length (continuation 3 (ext_of 5))) 2 5 wire ≡ take 5 five)
chunk_write_lem_example =
    chunk_write_lem five_message five 5 2 out five-Writable (with_capacity-IsValid 0) owned_out
      message_room

chunk_write_refuses_example :
    (chunk_write five_message five 6 2 out ≡ (out, err ErrorCode.chunk))
    ⊎ (chunk_write five_message five 6 2 out ≡ (out, err ErrorCode.internal))
chunk_write_refuses_example =
    chunk_write_refuses five_message five 6 2 out (inr (inr (inr (inr (inl (omega arith))))))
