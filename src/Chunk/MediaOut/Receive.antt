-- ===== src/Chunk/MediaOut/Receive.antt =====
-- src/chunk: a media message with a compressed header is read by chunk/reader.rs.
use librtmp.Common.{
  ℕ, suc, ◌+◌, ◌/◌, ◌%◌, ◌^◌, min, ◌≤◌, ◌<◌, ◌≡◌, refl, sym, ap, ◌∙◌, ◌⊎◌, inl, inr, true, false,
  some, List, [], ◌∷◌, ◌++◌, arith, lt→leb, length, drop, length-append, drop-append, drop-drop,
  append_assoc,
}
use librtmp.Common.Result.{ok}
use librtmp.Bytes.{at}
use librtmp.Buffer.{available, peek}
use librtmp.Buffer.Wf.{IsValid, length-peek}
use librtmp.Chunk.State.{ChunkStream, ChunkRegistry, get, map_or, can_get_or_create, fresh_stream}
use librtmp.Chunk.State.Inv.{RegInv, StreamInv}
use librtmp.Chunk.State.Lookup.{get_inv}
use librtmp.Chunk.State.Pending.{pending}
use librtmp.Chunk.Reader.{ChunkMessage, Header, Input, ReadResult, apply_header}
use librtmp.Chunk.Reader.Begin.{be24-drop, headed}
use librtmp.Chunk.Reader.Consume.{header_in, decode_header}
use librtmp.Chunk.Reader.Facts.{field_bytes}
use librtmp.Chunk.Reader.Loop.{next_message}
use librtmp.Chunk.Reader.Peek.{
  Plan, go, be24_at, peek_bytes, peek_stream, effective_length, part_length, budget_exceeded,
}
use librtmp.Chunk.Reader.Peek
use librtmp.Chunk.Reader.Took.{Took-less, before, behind_header, prior}
use librtmp.Chunk.Writer.{
  basic_header, first_header, continuation, extended_timestamp_marker, rtmp_min_csid, rtmp_max_csid,
}
use librtmp.Chunk.Writer.Emit.{fragments}
use librtmp.Chunk.Writer.Whole.{ext_of}
use librtmp.Chunk.RoundTrip.Finish.{Fields, read_on}
use librtmp.Chunk.RoundTrip.First.{bytes_from, plan}
use librtmp.Chunk.RoundTrip.Header.{basic_header_read}
use librtmp.Chunk.RoundTrip.Next.{Delivered, front_there}
use librtmp.Chunk.RoundTrip.Start.{Accepts}
use librtmp.Chunk.RoundTrip.Step.{step}
use librtmp.Chunk.MediaOut.Compact.{
  IsShort, short_fields, short_header, length-short_fields, short_timestamp, short_length,
  short_decoded, short_decode, stream_first_1, stream_first_2,
}

-- The header of format `fmt` and delta `d` says of the message `m` what the stream does not know.
pub record Says (fmt d : ℕ) (m : ChunkMessage) (s : ChunkStream) : Type 0 where
  pub header : s.has_message_header ≡ true
  pub sum : (s.type0_timestamp + d) % 2 ^ 32 ≡ m.timestamp
  pub stream_id : s.type0_msg_stream_id ≡ m.msg_stream_id
  pub idle : s.reassembly_bytes_read ≡ 0
  pub form :
      (fmt ≡ 1)
      ⊎ ((fmt ≡ 2) × (s.type0_msg_length ≡ m.msg_length) × (s.type0_msg_type_id ≡ m.msg_type_id))

pub IsShort-form : {fmt d : ℕ} {m : ChunkMessage} {s : ChunkStream} → Says fmt d m s → IsShort fmt
IsShort-form k = elim k.form [ inl e ↦ inl e | inr (e, _, _) ↦ inr e ]

-- The stream behind the header has the fields of the message.
says-Fields :
    (fmt d size : ℕ) (m : ChunkMessage) (s : ChunkStream) (h : Header) (p : Plan)
    → Says fmt d m s
    → h ≡ short_decoded fmt d m.msg_length m.msg_type_id
    → p.fmt ≡ fmt
    → p.ext_ts ≡ false
    → m.timestamp < extended_timestamp_marker
    → s.chunk_size ≡ size
    → Fields m size (headed p h s)
unfolding apply_header
says-Fields fmt d size m s h p k eh ef ex small ec =
    let ext = lt→leb 0xFFFFFF m.timestamp small in
    elim k.form [
      | inl e ↦
          rw (eh, ef, ex, e)
            (record {
              timestamp = k.sum;
              goal = refl;
              kind = refl;
              stream_id = k.stream_id;
              extended = sym ext;
              header = refl;
              chunk = ec;
            })
      | inr (e, el, ek) ↦
          rw (eh, ef, ex, e)
            (record {
              timestamp = k.sum;
              goal = el;
              kind = ek;
              stream_id = k.stream_id;
              extended = sym ext;
              header = k.header;
              chunk = ec;
            })
    ]

no_bytes {ℓ} : {A : Type ℓ} (xs : List A) → length xs ≡ 0 → xs ≡ []
no_bytes [] e = refl
no_bytes (x ∷ xs) e = absurd (omega arith)

same_part :
    (reg : ChunkRegistry) (fmt n size : ℕ) (s : ChunkStream)
    → s.reassembly_bytes_read ≡ 0
    → s.chunk_size ≡ size
    → part_length reg fmt n (some s) ≡ min n size
unfolding part_length
same_part reg fmt n size s idle e = ground arith

in_budget :
    (reg : ChunkRegistry) (fmt k : ℕ) (s : ChunkStream)
    → available s.reassembly_buf ≡ 0
    → reg.reassembly_bytes_in_use + k ≤ reg.max_reassembly_bytes
    → budget_exceeded reg fmt (some s) k ≡ false
unfolding budget_exceeded
in_budget reg fmt k s e h = ground arith

length_known :
    (xs : List ℕ) (fmt hs n k : ℕ) (s : ChunkStream)
    → (fmt ≡ 1) ⊎ ((fmt ≡ 2) × (s.type0_msg_length ≡ n))
    → (fmt ≡ 1 → be24_at xs (hs + 3) ≡ n)
    → effective_length xs fmt hs (some s) ≡ go k
    → k ≡ n
unfolding effective_length
length_known xs fmt hs n k s (inl e) f h = let e' = f e in ground arith
length_known xs fmt hs n k s (inr (e, el)) f h = ground arith

module _ (xs : List ℕ) (avail : ℕ) (reg : ChunkRegistry) (csid hs : ℕ) (s : ChunkStream) where
  -- Phase 1 on either format, behind the basic header.
  stream_short :
      (fmt d n ty k : ℕ)
      → (fmt ≡ 1) ⊎ ((fmt ≡ 2) × (s.type0_msg_length ≡ n) × (s.type0_msg_type_id ≡ ty))
      → be24_at xs hs ≡ d
      → d < extended_timestamp_marker
      → (fmt ≡ 1 → be24_at xs (hs + 3) ≡ n)
      → s.has_message_header ≡ true
      → s.reassembly_bytes_read ≡ 0
      → n ≤ reg.max_msg_length
      → part_length reg fmt n (some s) ≡ k
      → budget_exceeded reg fmt (some s) k ≡ false
      → can_get_or_create reg csid ≡ true
      → hs + field_bytes fmt + k ≤ avail
      → peek_stream xs avail reg fmt csid hs (hs + field_bytes fmt) (some s)
        ≡ go (plan xs avail reg csid hs fmt false k)
  stream_short fmt d n ty k (inl e) ed sd f head idle longest counted budget can fits =
      let len = f e in
      let fits' : hs + 7 + k ≤ avail = omega (arith, ap field_bytes e) in
      rw e (
        stream_first_1 xs avail reg csid hs (some s) d n k ed sd len longest (rw e at counted)
          (rw e at budget) can fits')
  stream_short fmt d n ty k (inr (e, el, ek)) ed sd f head idle longest counted budget can fits =
      let fits' : hs + 3 + k ≤ avail = omega (arith, ap field_bytes e) in
      rw e (
        stream_first_2 xs avail reg csid hs s d n k ed sd el head idle longest (rw e at counted)
          (rw e at budget) can fits')

module _ (m : ChunkMessage) (fmt d size : ℕ) (q rest : List ℕ) (i : Input) (s : ChunkStream)
    (v : RegInv i.reg) (w : IsValid i.buf) (lo : rtmp_min_csid ≤ m.csid)
    (hi : m.csid ≤ rtmp_max_csid) (short : m.msg_length < 2 ^ 24)
    (small : m.timestamp < extended_timestamp_marker) (sd : d < extended_timestamp_marker)
    (one : 1 ≤ size) (whole : length q ≡ m.msg_length)
    (acc : Accepts i.reg m.csid m.msg_length size) (there : get i.reg m.csid ≡ some s)
    (says : Says fmt d m s) (fuel : ℕ)
    (ahead : peek i.buf
      ≡ first_header m.csid fmt d m.msg_length m.msg_type_id m.msg_stream_id
        ++ (fragments (suc fuel) (continuation m.csid (ext_of m.timestamp)) size q ++ rest)) where
  abbrev hs : ℕ
  hs = length (basic_header m.csid fmt)

  abbrev chdr : List ℕ
  chdr = continuation m.csid (ext_of m.timestamp)

  abbrev tail : List ℕ
  tail = fragments (suc fuel) chdr size q ++ rest

  abbrev F : List ℕ
  F = short_fields fmt d m.msg_length m.msg_type_id

  abbrev short_plan : Plan
  short_plan = plan (peek i.buf) (available i.buf) i.reg m.csid hs fmt false (min (length q) size)

  form : IsShort fmt
  form = IsShort-form says

  small_fmt : fmt ≤ 2
  small_fmt = elim form [ inl e ↦ omega arith | inr e ↦ omega arith ]

  parts : peek i.buf ≡ basic_header m.csid fmt ++ (F ++ tail)
  parts =
      ahead
      ∙ ap (λ xs. xs ++ tail)
          (short_header m.csid fmt d m.msg_length m.msg_type_id m.msg_stream_id form sd)
      ∙ append_assoc (basic_header m.csid fmt) F tail

  behind_basic : drop hs (peek i.buf) ≡ F ++ tail
  behind_basic = ap (drop hs) parts ∙ drop-append hs (basic_header m.csid fmt) _ refl

  fields_length : length F ≡ field_bytes fmt
  fields_length = length-short_fields fmt d m.msg_length m.msg_type_id form

  behind_fields : drop (hs + field_bytes fmt) (peek i.buf) ≡ tail
  behind_fields =
      sym (drop-drop (field_bytes fmt) hs (peek i.buf))
      ∙ ap (drop (field_bytes fmt)) behind_basic
      ∙ drop-append (field_bytes fmt) F tail (sym fields_length)

  enough : hs + field_bytes fmt + min (length q) size ≤ available i.buf
  enough = omega (
    arith,
    ap length parts,
    length-append (basic_header m.csid fmt) (F ++ tail),
    length-append F tail,
    fields_length,
    length-append (fragments (suc fuel) chdr size q) rest,
    front_there fuel chdr size q rest,
    length-peek i.buf w,
  )

  inv : StreamInv s
  inv = get_inv i.reg v m.csid s there

  nothing : available s.reassembly_buf ≡ 0
  nothing = inv.buffered ∙ says.idle

  chunk : s.chunk_size ≡ size
  chunk = sym (ap (map_or i.reg.default_size (λ t. t.chunk_size)) there) ∙ acc.chunk

  room : i.reg.reassembly_bytes_in_use + m.msg_length ≤ i.reg.max_reassembly_bytes
  room =
      let e : map_or 0 (λ t. available t.reassembly_buf) (get i.reg m.csid) ≡ 0 =
        ap (map_or 0 (λ t. available t.reassembly_buf)) there ∙ nothing in
      omega (arith, acc.room)

  field_at : (k : ℕ) → be24_at (peek i.buf) (hs + k) ≡ be24_at (F ++ tail) k
  field_at k = sym (be24-drop k hs (peek i.buf)) ∙ ap (λ zs. be24_at zs k) behind_basic

  delta_field : be24_at (peek i.buf) hs ≡ d
  delta_field =
      let z : hs ≡ hs + 0 = omega arith in
      ap (be24_at (peek i.buf)) z
      ∙ field_at 0
      ∙ short_timestamp fmt d m.msg_length m.msg_type_id tail form sd

  length_field : fmt ≡ 1 → be24_at (peek i.buf) (hs + 3) ≡ m.msg_length
  length_field e =
      field_at 3
      ∙ ap (λ f. be24_at (short_fields f d m.msg_length m.msg_type_id ++ tail) 3) e
      ∙ short_length d m.msg_length m.msg_type_id tail short

  planned :
      peek_stream
        (peek i.buf)
        (available i.buf)
        i.reg
        fmt
        m.csid
        hs
        (hs + field_bytes fmt)
        (get i.reg m.csid)
      ≡ go short_plan
  planned =
      ap (peek_stream (peek i.buf) (available i.buf) i.reg fmt m.csid hs (hs + field_bytes fmt))
        there
      ∙ stream_short (peek i.buf) (available i.buf) i.reg m.csid hs s fmt d m.msg_length
          m.msg_type_id (min (length q) size) says.form delta_field sd length_field says.header
          says.idle acc.longest
          (same_part i.reg fmt m.msg_length size s says.idle chunk
            ∙ ap (λ n. min n size) (sym whole))
          (in_budget i.reg fmt (min (length q) size) s nothing (omega (arith, room, whole)))
          acc.can_open enough

  some_header : 1 ≤ hs
  some_header =
      let (_, _, h) =
        basic_header_read m.csid fmt hs [] lo hi (omega (arith, small_fmt)) (omega arith) in
      h

  peeked : peek_bytes (peek i.buf) (available i.buf) i.reg ≡ go short_plan
  peeked =
      let (ef, eh, _) =
        basic_header_read m.csid fmt (available i.buf) (F ++ tail) lo hi (omega (arith, small_fmt))
          (omega (arith, enough)) in
      bytes_from (peek i.buf) (available i.buf) i.reg fmt m.csid hs (go short_plan)
        (ap (λ xs. at xs 0 / 2 ^ 6) parts ∙ ef) (omega (arith, small_fmt))
        (ap (λ xs. Peek.basic_header xs (available i.buf)) parts ∙ eh)
        (omega (arith, enough, some_header)) (omega (arith, enough)) planned

  none_before : prior fmt i.reg m.csid ≡ []
  none_before =
      let empty : pending i.reg m.csid ≡ [] =
        ap (map_or [] (λ t. peek t.reassembly_buf)) there
        ∙ no_bytes (peek s.reassembly_buf) (length-peek s.reassembly_buf inv.valid ∙ nothing) in
      elim form [ inl e ↦ rw e refl | inr e ↦ rw e empty ]

  here : before short_plan i ≡ s
  here = ap (map_or (fresh_stream m.csid i.reg.default_size) (λ t. t)) there

  decoded : header_in short_plan (peek i.buf) ≡ short_decoded fmt d m.msg_length m.msg_type_id
  decoded =
      ap (decode_header fmt) behind_basic
      ∙ short_decode fmt d m.msg_length m.msg_type_id tail form sd short

  fields : Fields m size (behind_header short_plan i)
  fields = rw here (
      says-Fields fmt d size m s (header_in short_plan (peek i.buf)) short_plan says decoded refl
        refl small chunk)

  known :
      (k : ℕ) → effective_length (peek i.buf) fmt hs (get i.reg m.csid) ≡ go k → k ≡ m.msg_length
  known k e =
      length_known (peek i.buf) fmt hs m.msg_length k s
        (elim says.form [ inl f ↦ inl f | inr (f, el, _) ↦ inr (f, el) ]) length_field
        (ap (effective_length (peek i.buf) fmt hs) (sym there) ∙ e)

  -- A message behind a compressed header is read to its end.
  pub read_short :
      (msg : ChunkMessage)
      → length q ≤ fuel
      → (j : Input) × (res : ReadResult) × (next_message (suc fuel) msg i ≡ some (j, ok (res, q)))
        × Delivered m q rest i j res
  read_short msg long =
      let z : hs + field_bytes fmt + 0 ≡ hs + field_bytes fmt = omega arith in
      let (j, res, run, took, out) =
        step fuel chdr size q rest [] i short_plan msg m.msg_length v w short none_before
          (ap (λ n. drop n (peek i.buf)) z ∙ behind_fields) refl (omega (arith, whole)) peeked
          known in
      read_on m size q rest i lo hi short one whole msg fmt hs (min (length q) size) false fields
        acc.longest (omega (arith, whole)) (omega (arith, room)) fuel j res long refl run took out
        (Took-less short_plan m.msg_length msg i j res took w (omega (arith, some_header))
          (omega (arith, enough, some_header)))
