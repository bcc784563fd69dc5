-- ===== src/Chunk/RoundTrip/Continue.antt =====
-- src/chunk: the chunks that continue a message, written by chunk/writer.rs and read by chunk/reader.rs.
use librtmp.Common.{
  ℕ, suc, ◌+◌, ◌-◌, ◌/◌, ◌^◌, min, ◌≤◌, ◌<◌, ◌≡◌, refl, sym, ap, ◌∙◌, inl, inr, true, false, Option,
  some, none, List, [], ◌++◌, arith, leb, length, take, drop, Bool-cases, length-append,
  length-take_le, drop-append, leb→lt, append_assoc, append-nil,
}
use librtmp.Common.Result.{ok}
use librtmp.Bytes.{at, to_be32}
use librtmp.Buffer.{available, peek}
use librtmp.Buffer.Wf.{length-peek}
use librtmp.Chunk.State.{
  ChunkStream, ChunkRegistry, get, map_or, find_slot, slot_stream, can_create_at, can_get_or_create,
  fresh_stream,
}
use librtmp.Chunk.Reader.{ChunkMessage, Header, Input, ReadResult, chunk_read, apply_header}
use librtmp.Chunk.Reader.Peek.{
  Plan, go, peek_bytes, peek_stream, effective_length, part_length, budget_exceeded,
}
use librtmp.Chunk.Reader.Peek
use librtmp.Chunk.State.Pending.{pending}
use librtmp.Chunk.Reader.Begin.{headed}
use librtmp.Chunk.Reader.Facts.{ext_bytes}
use librtmp.Chunk.Reader.Took.{Took-less, Took, Left, collected, before, behind_header}
use librtmp.Chunk.Writer.{basic_header, continuation, rtmp_min_csid, rtmp_max_csid}
use librtmp.Chunk.Writer.Whole.{ext_of}
use librtmp.Chunk.Writer.Wire.{length-continuation}
use librtmp.Chunk.Writer.Emit.{fragments}
use librtmp.Chunk.RoundTrip.Header.{basic_header_read}
use librtmp.Chunk.RoundTrip.First.{plan, stream_next, bytes_from}
use librtmp.Chunk.RoundTrip.Next.{Mid, front_there}
use librtmp.Chunk.RoundTrip.Step.{Stepped, step}

-- A stream with an unfinished message can always be opened.
can_continue :
    (reg : ChunkRegistry) (csid : ℕ) (s : ChunkStream) (o : Option ℕ)
    → slot_stream reg o ≡ some s
    → s.reassembling ≡ true
    → can_create_at reg o ≡ true
can_continue reg csid s none e k = absurd (cc e)
can_continue reg csid s (some idx) e k = ground arith

can_continue_lem :
    (reg : ChunkRegistry) (csid : ℕ) (s : ChunkStream)
    → get reg csid ≡ some s
    → s.reassembling ≡ true
    → can_get_or_create reg csid ≡ true
unfolding get can_get_or_create
can_continue_lem reg csid s e k = can_continue reg csid s (find_slot reg csid) e k

-- A continuation leaves the header as it is.
headed_same :
    (p : Plan) (h : Header) (s : ChunkStream)
    → p.fmt ≡ 3
    → 1 ≤ s.reassembly_bytes_read
    → headed p h s ≡ s
unfolding apply_header
headed_same p h s e k = ground arith

known_size :
    (xs : List ℕ) (hs : ℕ) (s : ChunkStream) (k : ℕ)
    → effective_length xs 3 hs (some s) ≡ go k
    → k ≡ s.type0_msg_length
unfolding effective_length
known_size xs hs s k e = ground arith

in_budget :
    (reg : ChunkRegistry) (s : ChunkStream) (n : ℕ)
    → reg.reassembly_bytes_in_use + n ≤ reg.max_reassembly_bytes
    → budget_exceeded reg 3 (some s) n ≡ false
unfolding budget_exceeded
in_budget reg s n h = ground arith

part_left :
    (reg : ChunkRegistry) (s : ChunkStream) (n a b size : ℕ)
    → s.chunk_size ≡ size
    → s.reassembly_bytes_read ≡ a
    → a + b ≡ n
    → part_length reg 3 n (some s) ≡ min b size
unfolding part_length
part_left reg s n a b size es ea et =
    let e : n - s.reassembly_bytes_read ≡ b = omega arith in rw (es, e) refl

length-ext_of :
    (csid ts : ℕ)
    → length (continuation csid (ext_of ts))
      ≡ length (basic_header csid 3) + ext_bytes (leb 0xFFFFFF ts)
length-ext_of csid ts = elim (Bool-cases (leb 0xFFFFFF ts)) [
  | inl ext ↦ rw ext (length-continuation csid (some ts))
  | inr plain ↦ rw plain (length-continuation csid none)
]

-- The header of a continuation starts with its basic header.
continuation_parts :
    (csid ts : ℕ) → (ys : List ℕ) × (continuation csid (ext_of ts) ≡ basic_header csid 3 ++ ys)
unfolding continuation
continuation_parts csid ts = elim (Bool-cases (leb 0xFFFFFF ts)) [
  | inl ext ↦ (to_be32 ts, rw ext refl)
  | inr plain ↦ ([], rw plain (sym (append-nil (basic_header csid 3))))
]

module _ (m : ChunkMessage) (size : ℕ) (fuel : ℕ) (q rest got : List ℕ) (i : Input)
    (s : ChunkStream) (mid : Mid m size i got s) (lo : rtmp_min_csid ≤ m.csid)
    (hi : m.csid ≤ rtmp_max_csid) (short : m.msg_length < 2 ^ 24) (some_left : 1 ≤ length q)
    (one : 1 ≤ size) (total : length got + length q ≡ m.msg_length)
    (ahead : peek i.buf
      ≡ continuation m.csid (ext_of m.timestamp)
        ++ (fragments (suc fuel) (continuation m.csid (ext_of m.timestamp)) size q ++ rest)) where
  abbrev chdr : List ℕ
  chdr = continuation m.csid (ext_of m.timestamp)

  abbrev hs : ℕ
  hs = length (basic_header m.csid 3)

  -- The plan of the chunk.
  abbrev pub next_plan : Plan
  next_plan =
      plan (peek i.buf) (available i.buf) i.reg m.csid hs 3 (leb 0xFFFFFF m.timestamp)
        (min (length q) size)

  front_bytes : (ys : List ℕ) × (peek i.buf ≡ basic_header m.csid 3 ++ ys)
  front_bytes =
      let (zs, e) = continuation_parts m.csid m.timestamp in
      let tail : List ℕ = fragments (suc fuel) chdr size q ++ rest in
      (zs ++ tail, ahead ∙ ap (λ xs. xs ++ tail) e ∙ append_assoc (basic_header m.csid 3) zs tail)

  enough : hs + ext_bytes (leb 0xFFFFFF m.timestamp) + min (length q) size ≤ available i.buf
  enough =
      let tail : List ℕ = fragments (suc fuel) chdr size q ++ rest in
      omega (
        arith,
        ap length ahead,
        length-append chdr tail,
        length-ext_of m.csid m.timestamp,
        length-peek i.buf mid.valid,
        length-append (fragments (suc fuel) chdr size q) rest,
        front_there fuel chdr size q rest,
      )

  counted : part_length i.reg 3 m.msg_length (some s) ≡ min (length q) size
  counted = part_left i.reg s m.msg_length (length got) (length q) size mid.chunk mid.count total

  -- Phase 1 lets the chunk be read.
  peeked : peek_bytes (peek i.buf) (available i.buf) i.reg ≡ go next_plan
  peeked =
      let (ys, e) = front_bytes in
      let (ef, eh, some_header) =
        basic_header_read m.csid 3 (available i.buf) ys lo hi (omega arith)
          (omega (arith, enough)) in
      let room : i.reg.reassembly_bytes_in_use + min (length q) size ≤ i.reg.max_reassembly_bytes =
        omega (arith, mid.room, total) in
      let planned : peek_stream (peek i.buf) (available i.buf) i.reg 3 m.csid hs (hs + 0) (some s)
          ≡ go next_plan =
        stream_next (peek i.buf) (available i.buf) i.reg m.csid hs s m.msg_length
          (min (length q) size) (leb 0xFFFFFF m.timestamp) mid.goal mid.header mid.extended
          mid.longest counted (in_budget i.reg s (min (length q) size) room)
          (can_continue_lem i.reg m.csid s mid.there mid.live) enough in
      bytes_from (peek i.buf) (available i.buf) i.reg 3 m.csid hs (go next_plan)
        (ap (λ xs. at xs 0 / 2 ^ 6) e ∙ ef) (omega arith)
        (ap (λ xs. Peek.basic_header xs (available i.buf)) e ∙ eh)
        (omega (arith, enough, some_header)) (omega (arith, enough))
        (ap (peek_stream (peek i.buf) (available i.buf) i.reg 3 m.csid hs (hs + 0)) mid.there
          ∙ planned)

  headers :
      drop (hs + 0 + ext_bytes (leb 0xFFFFFF m.timestamp)) (peek i.buf)
      ≡ fragments (suc fuel) chdr size q ++ rest
  headers =
      ap (drop (hs + 0 + ext_bytes (leb 0xFFFFFF m.timestamp))) ahead
      ∙ drop-append (hs + 0 + ext_bytes (leb 0xFFFFFF m.timestamp)) chdr _
          (omega (arith, length-ext_of m.csid m.timestamp))

  -- The chunk is read, and the stream keeps the message's header.
  pub continue_step :
      (msg : ChunkMessage)
      → (j : Input) × (res : ReadResult) × (chunk_read msg i ≡ (j, ok res))
        × Took next_plan m.msg_length msg i j res
        × Stepped fuel chdr size q rest got m.msg_length next_plan i j res
  continue_step msg =
      step fuel chdr size q rest got i next_plan msg m.msg_length mid.inv mid.valid short mid.held
        headers refl total peeked
        (λ k e.
          known_size (peek i.buf) hs s k
            (ap (effective_length (peek i.buf) 3 hs) (sym mid.there) ∙ e)
          ∙ mid.goal)

  pub shrinks :
      (msg : ChunkMessage) (j : Input) (res : ReadResult)
      → Took next_plan m.msg_length msg i j res
      → available j.buf < available i.buf
  shrinks msg j res took =
      let (_, _, some_header) =
        basic_header_read m.csid 3 hs [] lo hi (omega arith) (omega arith) in
      Took-less next_plan m.msg_length msg i j res took mid.valid (omega arith)
        (omega (arith, enough))

  pub same_header : behind_header next_plan i ≡ s
  same_header =
      headed_same next_plan _ (before next_plan i) refl (
        omega (arith, mid.begun, mid.count, ap (λ (t : ChunkStream). t.reassembly_bytes_read) same))
      ∙ same
    where
      same : before next_plan i ≡ s
      same = ap (map_or (fresh_stream m.csid i.reg.default_size) (λ t. t)) mid.there

  pub next-Mid :
      (j : Input) (res : ReadResult) (msg : ChunkMessage) (t : ChunkStream)
      → Took next_plan m.msg_length msg i j res
      → collected next_plan i ≡ got ++ take size q
      → pending j.reg m.csid ≡ got ++ take size q
      → leb (length q) size ≡ false
      → Left next_plan i j t
      → Mid m size j (got ++ take size q) t
  next-Mid j res msg t took all_of_it kept more left =
      let lt = leb→lt _ _ more in
      let len = length-append got (take size q) in
      let cut = length-take_le size q (omega arith) in
      record {
        valid = took.valid;
        inv = took.inv;
        there = left.there;
        live = left.live;
        count = left.count ∙ ap length all_of_it;
        begun = omega arith;
        timestamp =
            left.timestamp
            ∙ ap (λ (u : ChunkStream). u.type0_timestamp) same_header
            ∙ mid.timestamp;
        goal = left.goal ∙ ap (λ (u : ChunkStream). u.type0_msg_length) same_header ∙ mid.goal;
        kind = left.kind ∙ ap (λ (u : ChunkStream). u.type0_msg_type_id) same_header ∙ mid.kind;
        stream_id =
            left.stream_id
            ∙ ap (λ (u : ChunkStream). u.type0_msg_stream_id) same_header
            ∙ mid.stream_id;
        extended =
            left.extended ∙ ap (λ (u : ChunkStream). u.type0_ext_ts) same_header ∙ mid.extended;
        header =
            left.header ∙ ap (λ (u : ChunkStream). u.has_message_header) same_header ∙ mid.header;
        chunk = left.size ∙ ap (λ (u : ChunkStream). u.chunk_size) same_header ∙ mid.chunk;
        held = kept;
        longest = rw took.limits.longest mid.longest;
        room = omega (arith, left.sum, took.limits.bytes, mid.room, total, len, cut);
      }
