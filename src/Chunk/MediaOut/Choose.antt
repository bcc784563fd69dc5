-- ===== src/Chunk/MediaOut/Choose.antt =====
-- src/chunk/media_out.rs: the headers that `choose` picks.
use librtmp.Common.{
  ℕ, ◌-◌, ◌≤◌, ◌<◌, ◌≡◌, refl, ◌⊎◌, inl, inr, Bool, true, not, ◌&&◌, Option, some, none, arith, ltb,
  leb, ◌==◌, Bool-cases, ltb→lt,
}
use librtmp.Common.Result.{ok, err, ErrorCode}
use librtmp.Types.{FrameType}
use librtmp.Chunk.State.{ChunkStream, rtmp_wire_max_msg_length}
use librtmp.Chunk.Writer.{extended_timestamp_marker}
use librtmp.Chunk.MediaOut.{
  MediaOutHeader, MediaFirstHeader, MediaHeaderTracker, media_chunk_stream, choose, choose_format,
  header_of, header_with, last_at,
}

-- The receiver's stream has the header that the tracker has recorded, and no message in parts.
pub record Knows (h : MediaOutHeader) (s : ChunkStream) : Type 0 where
  pub header : s.has_message_header ≡ true
  pub timestamp : s.type0_timestamp ≡ h.timestamp
  pub longness : s.type0_msg_length ≡ h.msg_length
  pub kind : s.type0_msg_type_id ≡ h.msg_type_id
  pub stream_id : s.type0_msg_stream_id ≡ h.msg_stream_id
  pub idle : s.reassembly_bytes_read ≡ 0

-- The delta of a compressed header is from a message that went to the same stream, not later.
abbrev pub Delta : ℕ → MediaOutHeader → MediaOutHeader → Type 0
Delta ts current prev =
    (prev.msg_stream_id ≡ current.msg_stream_id)
    × (prev.timestamp ≤ current.timestamp)
    × (ts ≡ current.timestamp - prev.timestamp)
    × (current.timestamp < extended_timestamp_marker)

abbrev pub FormatOf : MediaOutHeader → Option MediaOutHeader → ℕ × ℕ → Type 0
FormatOf current o (fmt, ts) =
    ((fmt ≡ 0) × (ts ≡ current.timestamp))
    ⊎ ((prev : MediaOutHeader) × (o ≡ some prev)
        × Delta ts current prev
        × ((fmt ≡ 1)
            ⊎ ((fmt ≡ 2)
                × (prev.msg_length ≡ current.msg_length)
                × (prev.msg_type_id ≡ current.msg_type_id))))

pub choose_format_cases :
    (compact : Bool) (current : MediaOutHeader) (o : Option MediaOutHeader)
    → FormatOf current o (choose_format compact current o)
unfolding choose_format
choose_format_cases compact current none = inl (refl, refl)
choose_format_cases compact current (some prev) =
    elim (Bool-cases (
      compact
      && (prev.msg_stream_id == current.msg_stream_id
          && (leb prev.timestamp current.timestamp
              && ltb current.timestamp extended_timestamp_marker)))) [
                | inr no_delta ↦ rw no_delta (inl (refl, refl))
                | inl delta ↦
                    let same : prev.msg_stream_id ≡ current.msg_stream_id = ground arith in
                    let back : prev.timestamp ≤ current.timestamp = ground arith in
                    let near : current.timestamp < extended_timestamp_marker = ground arith in
                    elim (Bool-cases (
                      prev.msg_length == current.msg_length
                      && (not (prev.msg_length == 0) && prev.msg_type_id == current.msg_type_id))) [
                        | inl all ↦
                            rw (delta, all)
                              (inr (
                                prev,
                                refl,
                                (same, back, refl, near),
                                inr (refl, ground arith, ground arith),
                              ))
                        | inr some_differ ↦
                            rw (delta, some_differ)
                              (inr (prev, refl, (same, back, refl, near), inl refl))
                      ]
              ]

pub choose_ok :
    (tracker : MediaHeaderTracker) (compact : Bool) (frame_type : FrameType)
    (msg_stream_id timestamp payload_len : ℕ) (h : MediaFirstHeader)
    → choose tracker compact frame_type msg_stream_id timestamp payload_len ≡ ok h
    → h
      ≡ header_with
          (media_chunk_stream frame_type)
          (header_of frame_type msg_stream_id timestamp payload_len)
          (choose_format compact
            (header_of frame_type msg_stream_id timestamp payload_len)
            (last_at tracker (media_chunk_stream frame_type).2))
unfolding choose
choose_ok tracker compact frame_type msg_stream_id timestamp payload_len h e = ground arith

format_small :
    (current : MediaOutHeader) (o : Option MediaOutHeader) (r : ℕ × ℕ)
    → FormatOf current o r
    → r.0 ≤ 2
format_small current o (fmt, ts) (inl (e, _)) = omega arith
format_small current o (fmt, ts) (inr (_, _, _, inl e)) = omega arith
format_small current o (fmt, ts) (inr (_, _, _, inr (e, _, _))) = omega arith

-- `choose` refuses a payload that no header can announce, and no other.
pub choose_cases :
    (tracker : MediaHeaderTracker) (compact : Bool) (frame_type : FrameType)
    (msg_stream_id timestamp payload_len : ℕ)
    → ((h : MediaFirstHeader) × (choose tracker compact frame_type msg_stream_id timestamp
            payload_len
          ≡ ok h)
        × (h.fmt ≤ 2)
        × (h.csid ≡ (media_chunk_stream frame_type).0))
      ⊎ ((rtmp_wire_max_msg_length < payload_len)
          × (choose tracker compact frame_type msg_stream_id timestamp payload_len
              ≡ err ErrorCode.internal))
unfolding choose
choose_cases tracker compact frame_type msg_stream_id timestamp payload_len =
    let current : MediaOutHeader = header_of frame_type msg_stream_id timestamp payload_len in
    let o : Option MediaOutHeader = last_at tracker (media_chunk_stream frame_type).2 in
    elim (Bool-cases (ltb rtmp_wire_max_msg_length payload_len)) [
      | inl long ↦ inr (ltb→lt _ _ long, rw long refl)
      | inr fits ↦ rw fits (
          inl (
            _,
            refl,
            format_small current o (choose_format compact current o)
                (choose_format_cases compact current o),
            refl,
          ))
    ]
