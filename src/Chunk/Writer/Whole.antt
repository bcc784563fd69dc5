-- ===== src/Chunk/Writer/Whole.antt =====
-- src/chunk/writer.rs: a whole message goes out, its header first.
use librtmp.Common.{
  ℕ, ◌+◌, ◌≤◌, ◌≡◌, ◌∙◌, ap, subst, true, Option, none, some, List, ◌++◌, arith, leb, if◌then◌else◌,
  length, take, length-append, length-take_le, le→ltb, ==_iff,
}
use librtmp.Common.Result.{ok}
use librtmp.Buffer.{Buffer, peek, buffer_max_size}
use librtmp.Buffer.Wf.{IsValid}
use librtmp.Buffer.Codec.{Emits, Emits-put, Emits-seq}
use librtmp.Chunk.State.{rtmp_wire_max_msg_length}
use librtmp.Chunk.Reader.{ChunkMessage}
use librtmp.Chunk.Writer.{
  first_header_len, first_header, write_first_header, chunk_body_len, continuation,
  write_chunk_body, chunk_write, chunk_write_sized, or_default, is_some, extended_timestamp_marker,
  rtmp_max_csid, rtmp_min_csid,
}
use librtmp.Chunk.Writer.Emit.{defragment, defragment-fragments}
use librtmp.Chunk.Writer.Wire.{
  Emits-reserved, body_wire, or_default_pos, length-body_wire, Emits-body_at, length-first_header,
}

Emits-write_first_header :
    (csid ts n ty sid : ℕ)
    → rtmp_min_csid ≤ csid
    → csid ≤ rtmp_max_csid
    → Emits (write_first_header csid 0 ts n ty sid) (first_header csid 0 ts n ty sid)
unfolding write_first_header
Emits-write_first_header csid ts n ty sid lo hi b v o room =
    rw (le→ltb rtmp_max_csid csid hi, le→ltb csid rtmp_min_csid lo)
      (Emits-put (first_header csid 0 ts n ty sid) b v o room)

-- The extended timestamp that the headers between the chunks repeat.
abbrev pub ext_of : ℕ → Option ℕ
ext_of ts = if leb extended_timestamp_marker ts then some ts else none

is_some-ext_of : (ts : ℕ) → is_some (ext_of ts) ≡ leb extended_timestamp_marker ts
is_some-ext_of ts = ground arith

-- A message that `chunk_write` may write: an absolute header, an id that can be encoded, a length
-- that fits the header's field, and a payload that has it.
pub record Writable (msg : ChunkMessage) (payload : List ℕ) (payload_len : ℕ) : Type 0 where
  pub low : rtmp_min_csid ≤ msg.csid
  pub high : msg.csid ≤ rtmp_max_csid
  pub absolute : msg.fmt ≡ 0
  pub short : msg.msg_length ≤ rtmp_wire_max_msg_length
  pub whole : payload_len ≡ msg.msg_length
  pub there : payload_len ≤ length payload

-- All the bytes of a message: its header and its chunks.
abbrev pub wire_len : ChunkMessage → ℕ → ℕ → ℕ
wire_len msg n size =
    first_header_len msg.csid 0 msg.timestamp
    + chunk_body_len msg.csid n (or_default size) (leb extended_timestamp_marker msg.timestamp)

-- The bytes of a message: its header and then its chunks.
abbrev pub message_wire : ChunkMessage → List ℕ → ℕ → List ℕ
message_wire msg payload size =
    first_header msg.csid 0 msg.timestamp msg.msg_length msg.msg_type_id msg.msg_stream_id
    ++ body_wire msg.csid (ext_of msg.timestamp) (or_default size) payload

pub length-message_wire :
    (msg : ChunkMessage) (payload : List ℕ) (size : ℕ)
    → length (message_wire msg payload size) ≡ wire_len msg (length payload) size
length-message_wire msg payload size =
    let wire : List ℕ = body_wire msg.csid (ext_of msg.timestamp) (or_default size) payload in
    let body_len : length wire
        ≡ chunk_body_len msg.csid (length payload) (or_default size)
            (leb extended_timestamp_marker msg.timestamp) =
      length-body_wire msg.csid (ext_of msg.timestamp) (or_default size) payload
        (or_default_pos size)
      ∙ (λ i.
          chunk_body_len msg.csid (length payload) (or_default size)
            (is_some-ext_of msg.timestamp i)) in
    omega (
      arith,
      body_len,
      length-append
          (first_header msg.csid 0 msg.timestamp msg.msg_length msg.msg_type_id msg.msg_stream_id)
          wire,
      length-first_header msg.csid msg.timestamp msg.msg_length msg.msg_type_id msg.msg_stream_id,
    )

pub Emits-chunk_write :
    (msg : ChunkMessage) (payload : List ℕ) (n size : ℕ)
    → Writable msg payload n
    → Emits (chunk_write msg payload n size) (message_wire msg (take n payload) size)
unfolding chunk_write chunk_write_sized
Emits-chunk_write msg payload n size h b v o room =
    let body : List ℕ = take n payload in
    let hdr : List ℕ =
      first_header msg.csid 0 msg.timestamp msg.msg_length msg.msg_type_id msg.msg_stream_id in
    let wire : List ℕ = body_wire msg.csid (ext_of msg.timestamp) (or_default size) body in
    let all_len : length (hdr ++ wire) ≡ wire_len msg n size =
      length-message_wire msg body size
      ∙ ap (λ k. wire_len msg k size) (length-take_le n payload h.there) in
    let (c, run, w, seen, own) =
      Emits-reserved (wire_len msg n size) _ (hdr ++ wire) (omega (arith, all_len))
        (Emits-seq
          (write_first_header msg.csid 0 msg.timestamp msg.msg_length msg.msg_type_id
            msg.msg_stream_id)
          (write_chunk_body msg.csid body (or_default size) (ext_of msg.timestamp)) hdr wire
          (Emits-write_first_header msg.csid msg.timestamp msg.msg_length msg.msg_type_id
            msg.msg_stream_id h.low h.high)
          (Emits-body_at msg.csid body (or_default size) (ext_of msg.timestamp) h.low h.high
            (or_default_pos size)))
        b v o room in
    (
      c,
      rw
          (
            le→ltb rtmp_max_csid msg.csid h.high,
            le→ltb msg.csid rtmp_min_csid h.low,
            (==_iff msg.fmt 0).1 h.absolute,
            le→ltb rtmp_wire_max_msg_length msg.msg_length h.short,
            (==_iff n msg.msg_length).1 h.whole,
            le→ltb (length payload) n h.there,
          )
          run,
      w,
      seen,
      own,
    )

-- A message that may be written is written in full to a buffer that can grow far enough: its header,
-- and then its payload in chunks that a receiver puts together again. As many bytes are added as are
-- reserved.
pub chunk_write_lem :
    (msg : ChunkMessage) (payload : List ℕ) (n size : ℕ) (b : Buffer)
    → Writable msg payload n
    → IsValid b
    → b.owned ≡ true
    → length (peek b) + wire_len msg n size ≤ buffer_max_size
    → (c : Buffer) × (wire : List ℕ) × (chunk_write msg payload n size b ≡ (c, ok tt))
      × IsValid c
      × (peek c
          ≡ peek b
            ++ (first_header msg.csid 0 msg.timestamp msg.msg_length msg.msg_type_id
                  msg.msg_stream_id
                ++ wire))
      × (length (
            first_header msg.csid 0 msg.timestamp msg.msg_length msg.msg_type_id msg.msg_stream_id
            ++ wire)
          ≡ wire_len msg n size)
      × (defragment n
            (length (continuation msg.csid (ext_of msg.timestamp)))
            (or_default size)
            n
            wire
          ≡ take n payload)
chunk_write_lem msg payload n size b h v o room =
    let body : List ℕ = take n payload in
    let wire : List ℕ = body_wire msg.csid (ext_of msg.timestamp) (or_default size) body in
    let len : length body ≡ n = length-take_le n payload h.there in
    let all_len : length (message_wire msg body size) ≡ wire_len msg n size =
      length-message_wire msg body size ∙ ap (λ k. wire_len msg k size) len in
    let (c, run, w, seen, own) =
      Emits-chunk_write msg payload n size h b v o (omega (arith, all_len)) in
    (
      c,
      wire,
      run,
      w,
      seen,
      all_len,
      subst
          (λ m.
            defragment m (length (continuation msg.csid (ext_of msg.timestamp))) (or_default size) m
              wire
            ≡ body)
          len
          (defragment-fragments (continuation msg.csid (ext_of msg.timestamp)) (or_default size)
            (or_default_pos size) (length body) body (omega arith)),
    )
