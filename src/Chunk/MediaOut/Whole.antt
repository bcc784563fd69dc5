-- ===== src/Chunk/MediaOut/Whole.antt =====
-- src/chunk/media_out.rs: a media message is queued whole or not at all, with a fresh body or a shared one.
use librtmp.Common.{
  ℕ, zero, suc, ◌+◌, ◌≤◌, ◌<◌, ◌≡◌, refl, sym, ap, ◌∙◌, subst, ◌⊎◌, inl, inr, Bool, true, Option,
  some, none, List, [], ◌++◌, arith, leb, if◌then◌else◌, Bool-cases, length, length-append, le→ltb,
}
use librtmp.Common.Result.{Result, ok, err, ErrorCode, M, ◌>>◌, map_err, set_err, and_then, discard}
use librtmp.Types.{FrameType, audio, video, script, metadata}
use librtmp.Buffer.{Buffer, peek, reserve, write, make_room, buffer_max_size}
use librtmp.Buffer.Wf.{IsValid, length-peek}
use librtmp.Buffer.Queue.{write-Wrote}
use librtmp.Buffer.Room.{MadeRoom, make_room-MadeRoom}
use librtmp.Buffer.Codec.{Emits, Emits-put, Emits-seq, write_back}
use librtmp.Chunk.Writer.{
  basic_header, first_header, first_header_len, write_first_header, write_chunk_body, write_chunks,
  continuation, chunk_body_len, or_default, is_some, extended_timestamp_marker, rtmp_min_csid,
  rtmp_max_csid,
}
use librtmp.Chunk.Writer.Emit.{Emits-write_chunks}
use librtmp.Chunk.Writer.Wire.{body_wire, or_default_pos, length-body_wire, Emits-write_chunk_body}
use librtmp.Chunk.State.{rtmp_wire_max_msg_length}
use librtmp.Chunk.MediaOut.Choose.{choose_cases}
use librtmp.Chunk.MediaOut.{
  MediaOut, MediaMessageInfo, MediaFirstHeader, media_chunk_stream, choose, encoded_len,
  write_header, commit, encode_media_body, write_media_message, write_media_message_with_body,
  with_header, committed, put_body,
}

-- What is written behind a reservation of `n` bytes: all of it, or nothing for want of room.
abbrev pub Fits : ℕ → List ℕ → Buffer → Buffer × Result (Unit {0}) → Type 0
Fits n ys b r =
    ((c : Buffer) × (r ≡ (c, ok tt))
      × IsValid c
      × (peek c ≡ peek b ++ ys)
      × (length (peek b) + n ≤ buffer_max_size))
    ⊎ ((c : Buffer) × (r ≡ (c, err ErrorCode.internal))
        × IsValid c
        × (peek c ≡ peek b)
        × (buffer_max_size < length (peek b) + n))

module _ (n : ℕ) (k : M Buffer (Unit {0})) (ys : List ℕ) (p : Emits k ys) (len : length ys ≡ n)
    (b : Buffer) (v : IsValid b) (o : b.owned ≡ true) where
  behind_reserve :
      (r : Buffer × Result (Unit {0})) → MadeRoom n b r → Fits n ys b (and_then r (λ _. k))
  behind_reserve (c, ok tt) (kept, _, room) =
      let short : length (peek b) + n ≤ buffer_max_size = omega (arith, length-peek b v) in
      let (d, run, w, seen, own) =
        p c kept.valid (kept.same_owned ∙ o) (omega (arith, ap length kept.unread, len)) in
      inl (d, run, w, seen ∙ ap (λ xs. xs ++ ys) kept.unread, short)
  behind_reserve (c, err e) (kept, code, inl big) =
      inr (c, ap (λ t. (c, err t)) code, kept.valid, kept.unread, omega (arith, length-peek b v))
  behind_reserve (c, err e) (kept, code, inr (fixed, _)) = absurd (cc (o, fixed))

  pub reserve_first : Fits n ys b ((reserve n >> k) b)
  unfolding reserve
  reserve_first = behind_reserve (make_room n b) (make_room-MadeRoom n b v)

same_code :
    (n : ℕ) (b : Buffer) (r : Buffer × Result (Unit {0}))
    → MadeRoom n b r
    → set_err ErrorCode.internal r ≡ r
same_code n b (c, ok u) m = refl
same_code n b (c, err e) (_, code, _) = ap (λ t. (c, err t)) (sym code)

map_err-reserve :
    (n : ℕ) (b : Buffer) → IsValid b → map_err ErrorCode.internal (reserve n) b ≡ reserve n b
unfolding reserve
map_err-reserve n b v = same_code n b (make_room n b) (make_room-MadeRoom n b v)

length-header :
    (csid fmt ts n ty sid : ℕ)
    → fmt ≤ 2
    → length (first_header csid fmt ts n ty sid) ≡ first_header_len csid fmt ts
unfolding first_header first_header_len
length-header csid zero ts n ty sid h = elim (Bool-cases (leb extended_timestamp_marker ts)) [
  | inl ext ↦ rw ext (omega (arith, length-append (basic_header csid 0)))
  | inr plain ↦ rw plain (omega (arith, length-append (basic_header csid 0)))
]
length-header csid (suc zero) ts n ty sid h = elim (Bool-cases (leb extended_timestamp_marker ts)) [
  | inl ext ↦ rw ext (omega (arith, length-append (basic_header csid 1)))
  | inr plain ↦ rw plain (omega (arith, length-append (basic_header csid 1)))
]
length-header csid (suc (suc zero)) ts n ty sid h =
    elim (Bool-cases (leb extended_timestamp_marker ts)) [
      | inl ext ↦ rw ext (omega (arith, length-append (basic_header csid 2)))
      | inr plain ↦ rw plain (omega (arith, length-append (basic_header csid 2)))
    ]
length-header csid (suc (suc (suc f))) ts n ty sid h = absurd (omega arith)

-- The bytes of the header.
abbrev pub header_wire : MediaFirstHeader → List ℕ
header_wire h =
    first_header h.csid h.fmt h.ts_field h.current.msg_length h.current.msg_type_id
      h.current.msg_stream_id

-- A header that the writer takes.
pub record Writes (h : MediaFirstHeader) : Type 0 where
  pub low : rtmp_min_csid ≤ h.csid
  pub high : h.csid ≤ rtmp_max_csid
  pub format : h.fmt ≤ 2

Emits-write_header : (h : MediaFirstHeader) → Writes h → Emits (write_header h) (header_wire h)
unfolding write_header write_first_header
Emits-write_header h w b v o room =
    rw
      (
        le→ltb 2 h.fmt w.format,
        le→ltb rtmp_max_csid h.csid w.high,
        le→ltb h.csid rtmp_min_csid w.low,
      )
      (Emits-put (header_wire h) b v o room)

Emits-put_body : (ys : List ℕ) → Emits (put_body ys) ys
Emits-put_body ys b v o room =
    let (c, r, w, seen, own) = write_back ys b (write ys b) v o room (write-Wrote ys b v) in
    (c, ap discard r, w, seen, own)

-- A message is queued whole and its header recorded, or nothing is written and nothing recorded.
abbrev pub Queued : MediaOut → MediaFirstHeader → List ℕ → MediaOut × Result (Unit {0}) → Type 0
Queued o h ys r =
    ((c : Buffer) × (r ≡ (record { out = c; tracker = commit h o.tracker }, ok tt))
      × IsValid c
      × (peek c ≡ peek o.out ++ (header_wire h ++ ys))
      × (length (peek o.out) + length (header_wire h ++ ys) ≤ buffer_max_size))
    ⊎ ((c : Buffer) × (r ≡ (record { out = c; tracker = o.tracker }, err ErrorCode.internal))
        × IsValid c
        × (peek c ≡ peek o.out)
        × (buffer_max_size < length (peek o.out) + length (header_wire h ++ ys)))

with_header-Queued :
    (o : MediaOut) (h : MediaFirstHeader) (n : ℕ) (body : M Buffer (Unit {0})) (ys : List ℕ)
    → Writes h
    → Emits body ys
    → length ys ≡ n
    → IsValid o.out
    → o.out.owned ≡ true
    → Queued o h ys (with_header o n body (ok h))
unfolding encoded_len
with_header-Queued o h n body ys w p len v own =
    let total : length (header_wire h ++ ys) ≡ first_header_len h.csid h.fmt h.ts_field + n =
      omega (
        arith,
        len,
        length-append (header_wire h) ys,
        length-header h.csid h.fmt h.ts_field h.current.msg_length h.current.msg_type_id
            h.current.msg_stream_id w.format,
      ) in
    elim (reserve_first (first_header_len h.csid h.fmt h.ts_field + n) (write_header h >> body)
      (header_wire h ++ ys)
      (Emits-seq (write_header h) body (header_wire h) ys (Emits-write_header h w) p) total o.out v
      own) [
        | inl (c, run, valid, seen, room) ↦ inl (
          c,
          ap (λ (r : Buffer × Result (Unit {0})). committed h o.tracker r) run,
          valid,
          seen,
          omega arith,
        )
        | inr (c, run, valid, seen, short) ↦ inr (
          c,
          ap (λ (r : Buffer × Result (Unit {0})). committed h o.tracker r) run,
          valid,
          seen,
          omega arith,
        )
      ]

-- The payload's chunks behind the header, and what writing them to a buffer comes to.
abbrev pub ext_time : ℕ → Option ℕ
ext_time timestamp = if leb extended_timestamp_marker timestamp then some timestamp else none

abbrev pub media_wire : FrameType → ℕ → List ℕ → ℕ → List ℕ
media_wire frame_type timestamp payload chunk_size =
    body_wire (media_chunk_stream frame_type).0 (ext_time timestamp) (or_default chunk_size) payload

pub csid_range :
    (f : FrameType)
    → (rtmp_min_csid ≤ (media_chunk_stream f).0) × ((media_chunk_stream f).0 ≤ rtmp_max_csid)
unfolding media_chunk_stream
csid_range audio = (omega arith, omega arith)
csid_range video = (omega arith, omega arith)
csid_range script = (omega arith, omega arith)
csid_range metadata = (omega arith, omega arith)

is_some-ext_time : (ts : ℕ) → is_some (ext_time ts) ≡ leb extended_timestamp_marker ts
is_some-ext_time ts = ground arith

same_default :
    (csid n size : ℕ) (e : Bool)
    → chunk_body_len csid n (or_default size) e ≡ chunk_body_len csid n size e
unfolding chunk_body_len
same_default csid n size e =
    let k : or_default (or_default size) ≡ or_default size = ground arith in rw k refl

pub length-media_wire :
    (f : FrameType) (ts : ℕ) (payload : List ℕ) (size : ℕ)
    → length (media_wire f ts payload size)
      ≡ chunk_body_len
          (media_chunk_stream f).0
          (length payload)
          size
          (leb extended_timestamp_marker ts)
length-media_wire f ts payload size =
    length-body_wire (media_chunk_stream f).0 (ext_time ts) (or_default size) payload
      (or_default_pos size)
    ∙ same_default (media_chunk_stream f).0 (length payload) size (is_some (ext_time ts))
    ∙ ap (chunk_body_len (media_chunk_stream f).0 (length payload) size) (is_some-ext_time ts)

pub encode_cases :
    (f : FrameType) (ts : ℕ) (payload : List ℕ) (size : ℕ) (b : Buffer)
    → IsValid b
    → b.owned ≡ true
    → Fits
        (length (media_wire f ts payload size))
        (media_wire f ts payload size)
        b
        (encode_media_body f ts payload size b)
unfolding encode_media_body write_chunk_body
encode_cases f ts payload size b v o =
    let csid : ℕ = (media_chunk_stream f).0 in
    let wire : List ℕ = media_wire f ts payload size in
    let n : ℕ = chunk_body_len csid (length payload) (or_default size) (is_some (ext_time ts)) in
    let len : length wire ≡ n =
      length-body_wire csid (ext_time ts) (or_default size) payload (or_default_pos size) in
    let (lo, hi) = csid_range f in
    rw (le→ltb rtmp_max_csid csid hi, le→ltb csid rtmp_min_csid lo)
      (rw (map_err-reserve n b v) (
        rw len (
          reserve_first n
            (write_chunks (length payload) (continuation csid (ext_time ts)) (or_default size)
              payload)
            wire
            (Emits-write_chunks (length payload) (continuation csid (ext_time ts)) (or_default size)
              payload (omega arith) (or_default_pos size))
            len b v o)))

Emits-encode_media_body :
    (f : FrameType) (ts : ℕ) (payload : List ℕ) (size : ℕ)
    → Emits (encode_media_body f ts payload size) (media_wire f ts payload size)
unfolding encode_media_body
Emits-encode_media_body f ts payload size =
    let (lo, hi) = csid_range f in
    Emits-write_chunk_body (media_chunk_stream f).0 payload size (ext_time ts) lo hi

module _ (compact : Bool) (msg : MediaMessageInfo) (payload : List ℕ) (size : ℕ) (o : MediaOut)
    (v : IsValid o.out) (own : o.out.owned ≡ true) where
  abbrev chosen : Result MediaFirstHeader
  chosen = choose o.tracker compact msg.frame_type msg.msg_stream_id msg.timestamp (length payload)

  abbrev wire : List ℕ
  wire = media_wire msg.frame_type msg.timestamp payload size

  Writes-chosen :
      (h : MediaFirstHeader) → h.fmt ≤ 2 → h.csid ≡ (media_chunk_stream msg.frame_type).0 → Writes h
  Writes-chosen h small e =
      let (lo, hi) = csid_range msg.frame_type in
      record { low = rw e lo; high = rw e hi; format = small }

  fresh-Queued :
      (h : MediaFirstHeader)
      → chosen ≡ ok h
      → Writes h
      → Queued o h wire (write_media_message compact msg payload size o)
  unfolding write_media_message
  fresh-Queued h e w = rw e (
      with_header-Queued o h _ (encode_media_body msg.frame_type msg.timestamp payload size) wire w
        (Emits-encode_media_body msg.frame_type msg.timestamp payload size)
        (length-media_wire msg.frame_type msg.timestamp payload size) v own)

  shared-Queued :
      (h : MediaFirstHeader) (body : List ℕ)
      → chosen ≡ ok h
      → Writes h
      → Queued o h body (write_media_message_with_body compact msg (length payload) body o)
  unfolding write_media_message_with_body
  shared-Queued h body e w =
      rw e (
        with_header-Queued o h (length body) (put_body body) body w (Emits-put_body body) refl v
          own)

  -- In a growable buffer a media message is queued whole, its header and its payload in chunks, and
  -- its header is recorded for the next one; or the message is refused, because its payload is longer
  -- than a header can announce or because the buffer cannot hold all of it, and then nothing is
  -- written and nothing is recorded.
  pub write_media_message_cases :
      ((h : MediaFirstHeader) × (chosen ≡ ok h)
        × Queued o h wire (write_media_message compact msg payload size o))
      ⊎ ((rtmp_wire_max_msg_length < length payload)
          × (write_media_message compact msg payload size o ≡ (o, err ErrorCode.internal)))
  unfolding write_media_message
  write_media_message_cases =
      elim (choose_cases o.tracker compact msg.frame_type msg.msg_stream_id msg.timestamp
        (length payload)) [
          | inl (h, e, small, id) ↦ inl (h, e, fresh-Queued h e (Writes-chosen h small id))
          | inr (long, e) ↦ inr (long, rw e refl)
        ]

-- Two calls with the same result, the same unread bytes and the same recorded headers.
abbrev pub Alike : MediaOut × Result (Unit {0}) → MediaOut × Result (Unit {0}) → Type 0
Alike (a, r) (b, q) = (r ≡ q) × (peek a.out ≡ peek b.out) × (a.tracker ≡ b.tracker)

Queued-Alike :
    (o : MediaOut) (h : MediaFirstHeader) (ys : List ℕ) (r q : MediaOut × Result (Unit {0}))
    → Queued o h ys r
    → Queued o h ys q
    → Alike r q
Queued-Alike o h ys r q (inl (c, e, _, seen, room)) (inl (d, e', _, seen', room')) =
    rw (e, e') (refl, seen ∙ sym seen', refl)
Queued-Alike o h ys r q (inl (c, e, _, seen, room)) (inr (d, e', _, seen', short)) =
    absurd (omega arith)
Queued-Alike o h ys r q (inr (c, e, _, seen, short)) (inl (d, e', _, seen', room)) =
    absurd (omega arith)
Queued-Alike o h ys r q (inr (c, e, _, seen, short)) (inr (d, e', _, seen', short')) =
    rw (e, e') (refl, seen ∙ sym seen', refl)

-- A relay that encodes the body once and puts it behind each receiver's own header queues the same
-- bytes, records the same header and fails in the same way as one that encodes the message for each
-- receiver. The body was encoded for the same frame and chunk size into an empty growable buffer.
pub with_body-Alike :
    (compact : Bool) (msg : MediaMessageInfo) (payload : List ℕ) (size : ℕ) (o : MediaOut)
    (b c : Buffer)
    → IsValid o.out
    → o.out.owned ≡ true
    → IsValid b
    → b.owned ≡ true
    → peek b ≡ []
    → encode_media_body msg.frame_type msg.timestamp payload size b ≡ (c, ok tt)
    → Alike
        (write_media_message_with_body compact msg (length payload) (peek c) o)
        (write_media_message compact msg payload size o)
unfolding write_media_message write_media_message_with_body
with_body-Alike compact msg payload size o b c v own w bown none_left encoded =
    let wire : List ℕ = media_wire msg.frame_type msg.timestamp payload size in
    let body : peek c ≡ wire =
      elim (encode_cases msg.frame_type msg.timestamp payload size b w bown) [
        | inl (d, e, _, seen, _) ↦
            ap (λ (r : Buffer × Result (Unit {0})). peek r.0) (sym encoded ∙ e)
            ∙ seen
            ∙ ap (λ xs. xs ++ wire) none_left
        | inr (d, e, _, _, _) ↦ absurd (cc (encoded, e))
      ] in
    elim (choose_cases o.tracker compact msg.frame_type msg.msg_stream_id msg.timestamp
      (length payload)) [
        | inr (long, e) ↦ rw e (refl, refl, refl)
        | inl (h, e, small, id) ↦
            let ok_h = Writes-chosen compact msg payload size o v own h small id in
            Queued-Alike o h wire _ _
              (subst
                (λ ys.
                  Queued o h ys
                    (write_media_message_with_body compact msg (length payload) (peek c) o))
                body (shared-Queued compact msg payload size o v own h (peek c) e ok_h))
              (fresh-Queued compact msg payload size o v own h e ok_h)
      ]
