-- ===== src/Chunk/MediaOut/Delivers.antt =====
-- src/chunk: what `write_media_message` has queued is read by a receiver whose stream is where the tracker
-- takes it to be.
use librtmp.Common.{
  get_or, set, [], ◌∷◌, zero, ℕ, suc, ◌+◌, ◌-◌, ◌^◌, ◌<◌, ◌≡◌, refl, sym, ap, ◌∙◌, subst, inl, inr,
  Bool, true, Option, some, none, List, ◌++◌, arith, length, drop, drop-append, append_assoc,
}
use librtmp.Common.Result.{Result, ok}
use librtmp.Types.{FrameType, audio, video, script, metadata}
use librtmp.Buffer.{peek}
use librtmp.Buffer.Wf.{IsValid}
use librtmp.Chunk.State.{ChunkStream, get}
use librtmp.Chunk.State.Inv.{RegInv}
use librtmp.Chunk.Reader.{ChunkMessage, Input, ReadResult}
use librtmp.Chunk.Reader.Loop.{next_message}
use librtmp.Chunk.Writer.{first_header, continuation, extended_timestamp_marker, or_default}
use librtmp.Chunk.Writer.Emit.{fragments}
use librtmp.Chunk.Writer.Whole.{ext_of}
use librtmp.Chunk.Writer.Wire.{or_default_pos}
use librtmp.Chunk.RoundTrip.Next.{Delivered}
use librtmp.Chunk.RoundTrip.Start.{Accepts}
use librtmp.Chunk.RoundTrip.Whole.{fragments_more, read_wire}
use librtmp.Chunk.MediaOut.{
  MediaOut, MediaMessageInfo, MediaOutHeader, MediaFirstHeader, MediaHeaderTracker, commit,
  media_chunk_stream, choose, choose_format, header_of, header_with, last_at, write_media_message,
}
use librtmp.Chunk.MediaOut.Choose.{Knows, FormatOf, choose_ok, choose_format_cases}
use librtmp.Chunk.MediaOut.Receive.{Says, read_short}
use librtmp.Chunk.MediaOut.Whole.{header_wire, media_wire, csid_range, write_media_message_cases}

-- The receiver's stream is the one that the last recorded header has left; with no recorded header it
-- may be any.
abbrev pub Meets : Option MediaOutHeader → ℕ → Input → Type 0
Meets none csid i = Unit {0}
Meets (some prev) csid i = (s : ChunkStream) × (get i.reg csid ≡ some s) × Knows prev s

-- The message as its receiver sees it.
abbrev pub message_of_media : MediaMessageInfo → ℕ → ChunkMessage
message_of_media info n = record {
  csid = (media_chunk_stream info.frame_type).0;
  fmt = 0;
  timestamp = info.timestamp;
  msg_length = n;
  msg_type_id = (media_chunk_stream info.frame_type).1;
  msg_stream_id = info.msg_stream_id;
  is_complete = true;
}

module _ (info : MediaMessageInfo) (payload : List ℕ) (size : ℕ) (rest : List ℕ) (i : Input)
    (msg : ChunkMessage) (v : RegInv i.reg) (w : IsValid i.buf) (ht : info.timestamp < 2 ^ 32)
    (hsid : info.msg_stream_id < 2 ^ 32) (short : length payload < 2 ^ 24) where
  abbrev m : ChunkMessage
  m = message_of_media info (length payload)

  abbrev current : MediaOutHeader
  current = header_of info.frame_type info.msg_stream_id info.timestamp (length payload)

  abbrev Read : ℕ → Type 0
  Read fuel =
      (j : Input) × (res : ReadResult) × (next_message fuel msg i ≡ some (j, ok (res, payload)))
      × Delivered m payload rest i j res

  module _ (acc : Accepts i.reg m.csid (length payload) (or_default size)) (fuel : ℕ)
      (enough : length payload < fuel) where
    Read-at :
        (fmt ts : ℕ)
        → (fuel' : ℕ) → fuel ≡ suc fuel'
        → (s : ChunkStream) → get i.reg m.csid ≡ some s
        → Says fmt ts m s
        → info.timestamp < extended_timestamp_marker
        → ts < extended_timestamp_marker
        → peek i.buf
          ≡ first_header m.csid fmt ts (length payload) m.msg_type_id m.msg_stream_id
            ++ (media_wire info.frame_type info.timestamp payload size ++ rest)
        → Read fuel
    Read-at fmt ts fuel' ef s there says near small ahead =
        let (lo, hi) = csid_range info.frame_type in
        let chdr : List ℕ = continuation m.csid (ext_of m.timestamp) in
        let n : ℕ = suc fuel' - length payload in
        let e : n + length payload ≡ suc fuel' = omega arith in
        let same : media_wire info.frame_type info.timestamp payload size
            ≡ fragments (suc fuel') chdr (or_default size) payload =
          sym (fragments_more n chdr (or_default size) payload (or_default_pos size))
          ∙ ap (λ k. fragments k chdr (or_default size) payload) e in
        subst Read (sym ef) (
          read_short m fmt ts (or_default size) payload rest i s v w lo hi short near small
            (or_default_pos size) refl acc there says fuel'
            (ahead
              ∙ ap
                  (λ ys.
                    first_header m.csid fmt ts (length payload) m.msg_type_id m.msg_stream_id
                    ++ (ys ++ rest))
                  same)
            msg (omega arith))

    Read-format :
        (o : Option MediaOutHeader) (r : ℕ × ℕ)
        → FormatOf current o r
        → Meets o m.csid i
        → peek i.buf
          ≡ first_header m.csid r.0 r.1 (length payload) m.msg_type_id m.msg_stream_id
            ++ (media_wire info.frame_type info.timestamp payload size ++ rest)
        → Read fuel
    Read-format o (fmt, ts) (inl (ef, et)) meets ahead =
        let (lo, hi) = csid_range info.frame_type in
        read_wire m (or_default size) payload rest i v w lo hi short ht hsid (or_default_pos size)
          refl acc msg fuel enough
          (ahead
            ∙ ap
                (λ (r : ℕ × ℕ).
                  first_header m.csid r.0 r.1 (length payload) m.msg_type_id m.msg_stream_id
                  ++ (media_wire info.frame_type info.timestamp payload size ++ rest))
                (λ k. (ef k, et k)))
    Read-format o (fmt, ts) (inr (prev, e, (same, back, et, near), form)) meets ahead =
        let (s, there, k) = subst (λ t. Meets t m.csid i) e meets in
        let says : Says fmt ts m s = record {
          header = k.header;
          sum = omega (arith, k.timestamp, et);
          stream_id = k.stream_id ∙ same;
          idle = k.idle;
          form = elim form [
            | inl ef ↦ inl ef
            | inr (ef, el, ek) ↦ inr (ef, k.longness ∙ el, k.kind ∙ ek)
          ];
        } in
        Read-at fmt ts (fuel - 1) (omega arith) s there says near (omega arith) ahead

-- A header has been picked only for a payload that it can announce.
fits_header :
    (compact : Bool) (info : MediaMessageInfo) (payload : List ℕ) (o : MediaOut)
    (h : MediaFirstHeader)
    → choose o.tracker compact info.frame_type info.msg_stream_id info.timestamp (length payload)
      ≡ ok h
    → length payload < 2 ^ 24
unfolding choose
fits_header compact info payload o h e = ground arith

get_or-set {ℓ} :
    {A : Type ℓ} (xs : List A) (i : ℕ) (a d : A) → i < length xs → get_or (set xs i a) i d ≡ a
get_or-set [] i a d h = absurd (omega arith)
get_or-set (x ∷ xs) zero a d h = refl
get_or-set (x ∷ xs) (suc i) a d h = get_or-set xs i a d (omega arith)

slot_small : (f : FrameType) → (media_chunk_stream f).2 < 3
unfolding media_chunk_stream
slot_small audio = omega arith
slot_small video = omega arith
slot_small script = omega arith
slot_small metadata = omega arith

-- The header of the message is the one that is recorded.
recorded :
    (compact : Bool) (f : FrameType) (now : MediaOutHeader) (h : MediaFirstHeader)
    (tracker : MediaHeaderTracker) (r : ℕ × ℕ)
    → h ≡ header_with (media_chunk_stream f) now r
    → length tracker.last ≡ 3
    → last_at (commit h tracker) (media_chunk_stream f).2 ≡ some now
unfolding commit
recorded compact f now h tracker r same three =
    ap
      (λ (g : MediaFirstHeader).
        get_or (set tracker.last g.slot (some g.current)) (media_chunk_stream f).2 none)
      same
    ∙ get_or-set tracker.last (media_chunk_stream f).2 (some now) none
        (omega (arith, slot_small f, three))

-- What `write_media_message` has queued, with whatever header it picks, and any bytes behind it, is read
-- by a receiver that has room for the message and the same chunk size, and whose stream is the one that
-- the last recorded header has left: its loop takes at most a round for each byte of the payload and one
-- more, and hands out the payload, whole, with the message's timestamp, length, type and stream id; the
-- bytes behind it are left, every other chunk stream is as it was, and the receiver's stream is again
-- the one that the last recorded header, now this message's, has left. Timestamp and stream id are
-- 32-bit numbers, and the tracker has its three slots.
pub write_media_message-next_message :
    (compact : Bool) (info : MediaMessageInfo) (payload : List ℕ) (size : ℕ) (o o' : MediaOut)
    (rest : List ℕ) (i : Input) (msg : ChunkMessage) (fuel : ℕ)
    → IsValid o.out
    → o.out.owned ≡ true
    → write_media_message compact info payload size o ≡ (o', ok tt)
    → info.timestamp < 2 ^ 32
    → info.msg_stream_id < 2 ^ 32
    → RegInv i.reg
    → IsValid i.buf
    → peek i.buf ≡ drop (length (peek o.out)) (peek o'.out) ++ rest
    → Meets
        (last_at o.tracker (media_chunk_stream info.frame_type).2)
        (media_chunk_stream info.frame_type).0
        i
    → Accepts i.reg (media_chunk_stream info.frame_type).0 (length payload) (or_default size)
    → length payload < fuel
    → length o.tracker.last ≡ 3
    → (j : Input) × (res : ReadResult) × (next_message fuel msg i ≡ some (j, ok (res, payload)))
      × Delivered (message_of_media info (length payload)) payload rest i j res
      × Meets
          (last_at o'.tracker (media_chunk_stream info.frame_type).2)
          (media_chunk_stream info.frame_type).0
          j
write_media_message-next_message compact info payload size o o' rest i msg fuel v own wrote ht hsid
      vr vi ahead meets acc enough three =
    elim (write_media_message_cases compact info payload size o v own) [
      | inr (long, e) ↦ absurd (cc (sym wrote ∙ e))
      | inl (h, e, inr (c, run, _, _, _)) ↦ absurd (cc (sym wrote ∙ run))
      | inl (h, e, inl (c, run, _, seen, _)) ↦
          let last : Option MediaOutHeader =
            last_at o.tracker (media_chunk_stream info.frame_type).2 in
          let now : MediaOutHeader =
            header_of info.frame_type info.msg_stream_id info.timestamp (length payload) in
          let same : h
              ≡ header_with (media_chunk_stream info.frame_type) now
                  (choose_format compact now last) =
            choose_ok o.tracker compact info.frame_type info.msg_stream_id info.timestamp
              (length payload) h e in
          let out : o'.out ≡ c =
            ap (λ (r : MediaOut × Result (Unit {0})). r.0.out) (sym wrote ∙ run) in
          let wire : List ℕ = media_wire info.frame_type info.timestamp payload size in
          let added : drop (length (peek o.out)) (peek o'.out) ≡ header_wire h ++ wire =
            ap (λ b. drop (length (peek o.out)) (peek b)) out
            ∙ ap (drop (length (peek o.out))) seen
            ∙ drop-append (length (peek o.out)) (peek o.out) (header_wire h ++ wire) refl in
          let (j, res, ran, d) =
            Read-format info payload size rest i msg vr vi ht hsid
              (fits_header compact info payload o h e) acc fuel enough last
              (choose_format compact now last) (choose_format_cases compact now last) meets
              (ahead
                ∙ ap (λ xs. xs ++ rest) added
                ∙ append_assoc (header_wire h) wire rest
                ∙ ap (λ g. header_wire g ++ (wire ++ rest)) same) in
          let (s, there, k) = d.left in
          let committed_tracker : o'.tracker ≡ commit h o.tracker =
            ap (λ (r : MediaOut × Result (Unit {0})). r.0.tracker) (sym wrote ∙ run) in
          let latest : last_at o'.tracker (media_chunk_stream info.frame_type).2 ≡ some now =
            ap (λ t. last_at t (media_chunk_stream info.frame_type).2) committed_tracker
            ∙ recorded compact info.frame_type now h o.tracker (choose_format compact now last) same
                three in
          let met : Meets (some now) (media_chunk_stream info.frame_type).0 j = (
            s,
            there,
            record {
              header = k.header;
              timestamp = k.timestamp;
              longness = k.longness;
              kind = k.kind;
              stream_id = k.stream_id;
              idle = k.idle;
            },
          ) in
          (
            j,
            res,
            ran,
            d,
            subst (λ t. Meets t (media_chunk_stream info.frame_type).0 j) (sym latest) met,
          )
    ]
