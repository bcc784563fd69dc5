-- ===== src/Chunk/MediaOut.antt =====
-- src/chunk/media_out.rs: media messages go out with compressed headers.
pub mod Choose
pub mod Compact
pub mod Receive
pub mod Delivers
pub mod Whole
mod Tests
use librtmp.Common.{
  ℕ, zero, suc, ◌+◌, ◌-◌, Bool, true, false, not, ◌&&◌, Option, some, none, List, [], ◌∷◌, ltb, leb,
  ◌==◌, if◌then◌else◌, length, get_or, set,
}
use librtmp.Common.Result.{Result, ok, err, ErrorCode, M, ◌>>◌, discard}
use librtmp.Types.{FrameType, audio, video, script, metadata}
use librtmp.Buffer.{Buffer, reserve, write}
use librtmp.Chunk.State.{rtmp_wire_max_msg_length}
use librtmp.Chunk.Writer.{
  extended_timestamp_marker, first_header_len, chunk_body_len, write_first_header, write_chunk_body,
}

abbrev pub rtmp_msg_amf0_data : ℕ
rtmp_msg_amf0_data = 0x12

-- The chunk stream, the message type and the slot of the tracker.
unfoldable pub media_chunk_stream : FrameType → ℕ × ℕ × ℕ
media_chunk_stream audio = (4, 0x08, 0)
media_chunk_stream script = (5, rtmp_msg_amf0_data, 1)
media_chunk_stream metadata = (5, rtmp_msg_amf0_data, 1)
media_chunk_stream video = (6, 0x09, 2)

pub record MediaOutHeader : Type 0 where
  pub msg_stream_id : ℕ
  pub timestamp : ℕ
  pub msg_length : ℕ
  pub msg_type_id : ℕ

pub record MediaFirstHeader : Type 0 where
  pub csid : ℕ
  pub fmt : ℕ
  pub ts_field : ℕ
  pub slot : ℕ
  pub current : MediaOutHeader

-- `MediaFirstHeader::encoded_len`
unfoldable pub encoded_len : MediaFirstHeader → ℕ
encoded_len h = first_header_len h.csid h.fmt h.ts_field

-- `MediaFirstHeader::write`
unfoldable pub write_header : MediaFirstHeader → M Buffer (Unit {0})
write_header h =
    write_first_header h.csid h.fmt h.ts_field h.current.msg_length h.current.msg_type_id
      h.current.msg_stream_id

-- The array of three slots.
pub record MediaHeaderTracker : Type 0 where
  pub last : List (Option MediaOutHeader)

-- `MediaHeaderTracker::default`
unfoldable pub new_tracker : MediaHeaderTracker
new_tracker = record { last = none ∷ none ∷ none ∷ [] }

-- `self.last[slot]`
abbrev pub last_at : MediaHeaderTracker → ℕ → Option MediaOutHeader
last_at tracker slot = get_or tracker.last slot none

-- The `match self.last[slot]`: the format and the timestamp field.
unfoldable pub choose_format : Bool → MediaOutHeader → Option MediaOutHeader → ℕ × ℕ
choose_format compact current none = (0, current.timestamp)
choose_format compact current (some prev) =
    if compact
      && (prev.msg_stream_id == current.msg_stream_id
          && (leb prev.timestamp current.timestamp
              && ltb current.timestamp extended_timestamp_marker))
    then (
      (if prev.msg_length == current.msg_length
            && (not (prev.msg_length == 0) && prev.msg_type_id == current.msg_type_id)
          then 2
          else 1),
      current.timestamp - prev.timestamp,
    )
    else (0, current.timestamp)

abbrev pub header_with : ℕ × ℕ × ℕ → MediaOutHeader → ℕ × ℕ → MediaFirstHeader
header_with (csid, _, slot) current (fmt, ts_field) = record {
  csid = csid;
  fmt = fmt;
  ts_field = ts_field;
  slot = slot;
  current = current;
}

abbrev pub header_of : FrameType → ℕ → ℕ → ℕ → MediaOutHeader
header_of frame_type msg_stream_id timestamp payload_len = record {
  msg_stream_id = msg_stream_id;
  timestamp = timestamp;
  msg_length = payload_len;
  msg_type_id = (media_chunk_stream frame_type).1;
}

unfoldable pub choose : MediaHeaderTracker → Bool → FrameType → ℕ → ℕ → ℕ → Result MediaFirstHeader
unfolding choose_format
choose tracker compact frame_type msg_stream_id timestamp payload_len =
    if ltb rtmp_wire_max_msg_length payload_len
    then err ErrorCode.internal
    else ok (
        header_with (media_chunk_stream frame_type)
          (header_of frame_type msg_stream_id timestamp payload_len)
          (choose_format compact (header_of frame_type msg_stream_id timestamp payload_len)
            (last_at tracker (media_chunk_stream frame_type).2)))

unfoldable pub commit : MediaFirstHeader → MediaHeaderTracker → MediaHeaderTracker
commit header tracker = record { last = set tracker.last header.slot (some header.current) }

unfoldable pub encode_media_body : FrameType → ℕ → List ℕ → ℕ → M Buffer (Unit {0})
encode_media_body frame_type timestamp payload chunk_size =
    write_chunk_body (media_chunk_stream frame_type).0 payload chunk_size
      (if leb extended_timestamp_marker timestamp then some timestamp else none)

pub record MediaMessageInfo : Type 0 where
  pub frame_type : FrameType
  pub msg_stream_id : ℕ
  pub timestamp : ℕ

-- The output buffer and the tracker that the two functions borrow.
pub record MediaOut : Type 0 where
  pub out : Buffer
  pub tracker : MediaHeaderTracker

-- The tracker is committed behind the last write.
abbrev pub committed :
    MediaFirstHeader
    → MediaHeaderTracker
    → Buffer × Result (Unit {0})
    → MediaOut × Result (Unit {0})
committed header tracker (b, ok _) = (record { out = b; tracker = commit header tracker }, ok tt)
committed header tracker (b, err e) = (record { out = b; tracker = tracker }, err e)

-- `reserve`, and what is written behind it.
abbrev pub with_header :
    MediaOut → ℕ → M Buffer (Unit {0}) → Result MediaFirstHeader → MediaOut × Result (Unit {0})
with_header o body_len body (err e) = (o, err e)
with_header o body_len body (ok header) =
    committed header o.tracker
      ((do reserve (encoded_len header + body_len); write_header header; body) o.out)

unfoldable pub write_media_message : Bool → MediaMessageInfo → List ℕ → ℕ → M MediaOut (Unit {0})
write_media_message compact msg payload chunk_size o =
    with_header o
      (chunk_body_len (media_chunk_stream msg.frame_type).0 (length payload) chunk_size
        (leb extended_timestamp_marker msg.timestamp))
      (encode_media_body msg.frame_type msg.timestamp payload chunk_size)
      (choose o.tracker compact msg.frame_type msg.msg_stream_id msg.timestamp (length payload))

-- `out.write(body)?`
abbrev pub put_body : List ℕ → M Buffer (Unit {0})
put_body body b = discard (write body b)

unfoldable pub write_media_message_with_body :
    Bool → MediaMessageInfo → ℕ → List ℕ → M MediaOut (Unit {0})
write_media_message_with_body compact msg payload_len body o =
    with_header o (length body) (put_body body)
      (choose o.tracker compact msg.frame_type msg.msg_stream_id msg.timestamp payload_len)
