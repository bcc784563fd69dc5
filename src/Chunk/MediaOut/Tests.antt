-- ===== src/Chunk/MediaOut/Tests.antt =====
-- src/chunk/media_out.rs: two video messages of one receiver.
use librtmp.Common.{
  ℕ, ◌<◌, ◌+◌, ◌≤◌, ◌≡◌, refl, sym, ap, ◌∙◌, ◌⊎◌, inl, inr, true, some, none, List, [], ◌∷◌, ◌++◌,
  arith, length, length-append, drop, false,
}
use librtmp.Common.Result.{ok, err, ErrorCode}
use librtmp.Types.{video}
use librtmp.Buffer.{Buffer, with_capacity, from_slice, peek, buffer_max_size, available}
use librtmp.Buffer.New.{
  with_capacity-IsValid, peek-with_capacity, from_slice-IsValid, peek-from_slice,
}
use librtmp.Chunk.State.{
  ChunkStream, ChunkRegistry, fresh_stream, rtmp_wire_max_msg_length, get_or_create_index, new,
  stream_at, modify_stream, get, find_slot, can_get_or_create, create,
}
use librtmp.Chunk.State.Inv.{RegInv, stream_inv, with_slot-RegInv}
use librtmp.Chunk.State.Ops.{new-RegInv, get_or_create_index-RegInv}
use librtmp.Chunk.RoundTrip.Start.{Accepts}
use librtmp.Chunk.RoundTrip.Next.{Delivered}
use librtmp.Chunk.Reader.{ChunkMessage, Input, ReadResult}
use librtmp.Chunk.Reader.Loop.{next_message}
use librtmp.Chunk.MediaOut.Delivers.{Meets, message_of_media, write_media_message-next_message}
use librtmp.Chunk.Writer.{chunk_body_len, basic_header, first_header}
use librtmp.Chunk.MediaOut.{
  MediaOut, MediaMessageInfo, MediaOutHeader, MediaFirstHeader, MediaHeaderTracker,
  media_chunk_stream, last_at, choose, header_of, encode_media_body, write_media_message,
  write_media_message_with_body,
}
use librtmp.Chunk.MediaOut.Choose.{Knows}
use librtmp.Chunk.MediaOut.Whole.{
  Fits, Queued, Alike, header_wire, media_wire, encode_cases, length-media_wire,
  write_media_message_cases, with_body-Alike,
}

abbrev sent_before : MediaOutHeader
sent_before = record { msg_stream_id = 1; timestamp = 1000; msg_length = 3; msg_type_id = 9 }

abbrev tracker : MediaHeaderTracker
tracker = record { last = none ∷ none ∷ some sent_before ∷ [] }

abbrev three : List ℕ
three = 1 ∷ 2 ∷ 3 ∷ []

abbrev receiver : ChunkStream
receiver = record (fresh_stream 6 128) {
  has_message_header = true;
  type0_timestamp = 1000;
  type0_msg_length = 3;
  type0_msg_type_id = 9;
  type0_msg_stream_id = 1;
}

receiver-Knows : Knows sent_before receiver
unfolding fresh_stream
receiver-Knows = record {
  header = refl;
  timestamp = refl;
  longness = refl;
  kind = refl;
  stream_id = refl;
  idle = refl;
}

abbrev queue : MediaOut
queue = record { out = with_capacity 0; tracker = tracker }

queue_owned : queue.out.owned ≡ true
unfolding with_capacity
queue_owned = refl

abbrev info : MediaMessageInfo
info = record { frame_type = video; msg_stream_id = 1; timestamp = 1040 }

write_media_message_cases_example :
    ((h : MediaFirstHeader) × (choose tracker true video 1 1040 3 ≡ ok h)
      × Queued queue h
          (media_wire video 1040 three 2)
          (write_media_message true info three 2 queue))
    ⊎ ((rtmp_wire_max_msg_length < length three)
        × (write_media_message true info three 2 queue ≡ (queue, err ErrorCode.internal)))
write_media_message_cases_example =
    write_media_message_cases true info three 2 queue (with_capacity-IsValid 0) queue_owned

abbrev encoded : Buffer
encoded = (encode_media_body video 1040 three 2 (with_capacity 0)).0

small : length (peek (with_capacity 0)) + length (media_wire video 1040 three 2) ≤ buffer_max_size
unfolding peek with_capacity chunk_body_len basic_header media_chunk_stream
small = omega (arith, length-media_wire video 1040 three 2)

video_body : encode_media_body video 1040 three 2 (with_capacity 0) ≡ (encoded, ok tt)
video_body =
    of_fits
      (encode_cases video 1040 three 2 (with_capacity 0) (with_capacity-IsValid 0) queue_owned)
  where
    of_fits :
        Fits
          (length (media_wire video 1040 three 2))
          (media_wire video 1040 three 2)
          (with_capacity 0)
          (encode_media_body video 1040 three 2 (with_capacity 0))
        → encode_media_body video 1040 three 2 (with_capacity 0) ≡ (encoded, ok tt)
    of_fits (inl (c, e, _, _, _)) = e ∙ (λ i. ((sym e i).0, ok tt))
    of_fits (inr (c, e, _, _, short)) = absurd (omega (arith, short, small))

with_body-Alike_example :
    Alike
      (write_media_message_with_body true info 3 (peek encoded) queue)
      (write_media_message true info three 2 queue)
with_body-Alike_example =
    with_body-Alike true info three 2 queue (with_capacity 0) encoded (with_capacity-IsValid 0)
      queue_owned (with_capacity-IsValid 0) queue_owned (peek-with_capacity 0) video_body

-- The receiver has a stream for video, as the last header has left it.
abbrev opened : ChunkRegistry
opened = (get_or_create_index 6 new).0

opened-RegInv : RegInv opened
opened-RegInv = get_or_create_index-RegInv new 6 new-RegInv

opened_slot : (0 < length opened.streams) × (stream_at opened 0 ≡ fresh_stream 6 128)
unfolding get_or_create_index find_slot create new
opened_slot = (omega arith, refl)

abbrev known : ChunkStream → ChunkStream
known s = record s {
  has_message_header = true;
  type0_timestamp = 1000;
  type0_msg_length = 3;
  type0_msg_type_id = 9;
  type0_msg_stream_id = 1;
}

abbrev reached : ChunkRegistry
reached = modify_stream 0 known opened

opened_idle : (stream_at opened 0).reassembly_bytes_read ≡ 0
unfolding fresh_stream
opened_idle = ap (λ (s : ChunkStream). s.reassembly_bytes_read) opened_slot.1

reached-RegInv : RegInv reached
reached-RegInv =
    let si = stream_inv opened opened-RegInv 0 opened_slot.0 in
    with_slot-RegInv opened opened-RegInv 0 opened_slot.0 known opened.reassembly_bytes_in_use
      opened.reassembling_count (refl, refl)
      (record {
        valid = si.valid;
        growable = si.growable;
        buffered = si.buffered;
        part = omega (arith, opened_idle);
        short = omega arith;
        roomy = si.roomy;
        idle = si.idle;
      })
      refl refl opened-RegInv.budget opened-RegInv.cap

reached_stream : get reached 6 ≡ some receiver
unfolding get_or_create_index find_slot create new get fresh_stream
reached_stream = refl

reached-Accepts : Accepts reached 6 3 128
unfolding get_or_create_index find_slot create new get fresh_stream can_get_or_create available
    with_capacity
reached-Accepts = record {
  chunk = refl;
  longest = omega arith;
  room = omega arith;
  can_open = refl;
}

-- Format 2, 40 ms later, of the same length.
abbrev sent : MediaOut
sent = (write_media_message true info three 128 queue).0

abbrev picked : MediaFirstHeader
picked = record { csid = 6; fmt = 2; ts_field = 40; slot = 2; current = header_of video 1 1040 3 }

picked_chosen : choose tracker true video 1 1040 3 ≡ ok picked
unfolding choose media_chunk_stream
picked_chosen = refl

picked_fits :
    length (peek queue.out) + length (header_wire picked ++ media_wire video 1040 three 128)
    ≤ buffer_max_size
unfolding peek with_capacity first_header basic_header chunk_body_len media_chunk_stream
picked_fits = omega (
  arith,
  length-append (header_wire picked) (media_wire video 1040 three 128),
  length-media_wire video 1040 three 128,
)

sent_ok : write_media_message true info three 128 queue ≡ (sent, ok tt)
sent_ok =
    elim (write_media_message_cases true info three 128 queue (with_capacity-IsValid 0)
      queue_owned) [
        | inl (h, e, inl (c, run, _, _, _)) ↦ run ∙ (λ i. ((sym run i).0, ok tt))
        | inl (h, e, inr (c, run, _, _, short)) ↦
            let same : h ≡ picked = cc (e, picked_chosen) in
            absurd (
              omega (
                arith,
                short,
                picked_fits,
                ap (λ g. length (header_wire g ++ media_wire video 1040 three 128)) same,
              ))
        | inr (long, e) ↦ absurd (omega arith)
      ]

-- Two more bytes follow.
abbrev arrived : Input
arrived = record {
  buf = from_slice (drop (length (peek queue.out)) (peek sent.out) ++ (7 ∷ 8 ∷ []));
  reg = reached;
}

abbrev no_message : ChunkMessage
no_message = record {
  csid = 0;
  fmt = 0;
  timestamp = 0;
  msg_length = 0;
  msg_type_id = 0;
  msg_stream_id = 0;
  is_complete = false;
}

receiver-Meets :
    Meets (last_at tracker (media_chunk_stream video).2) (media_chunk_stream video).0 arrived
unfolding media_chunk_stream
receiver-Meets = (receiver, reached_stream, receiver-Knows)

video-Accepts : Accepts reached (media_chunk_stream video).0 3 128
unfolding media_chunk_stream
video-Accepts = reached-Accepts

write_media_message-next_message_example :
    (j : Input) × (res : ReadResult) × (next_message 4 no_message arrived
      ≡ some (j, ok (res, three)))
    × Delivered (message_of_media info 3) three (7 ∷ 8 ∷ []) arrived j res
    × Meets (last_at sent.tracker (media_chunk_stream video).2) (media_chunk_stream video).0 j
write_media_message-next_message_example =
    write_media_message-next_message true info three 128 queue sent (7 ∷ 8 ∷ []) arrived no_message
      4 (with_capacity-IsValid 0) queue_owned sent_ok (omega arith) (omega arith) reached-RegInv
      (from_slice-IsValid _) (peek-from_slice _) receiver-Meets video-Accepts (omega arith) refl
