-- ===== src/Chunk/Writer/Wire.antt =====
-- src/chunk/writer.rs: a message goes out in full, in chunks that give the payload back.
use librtmp.Common.{
  ℕ, ◌+◌, ◌≤◌, ◌≡◌, refl, ap, ◌∙◌, subst, inl, inr, true, Option, none, some, List, ◌++◌, arith,
  leb, if◌then◌else◌, length, length-append, Bool-cases, le→ltb,
}
use librtmp.Common.Result.{Result, ok, err, ErrorCode, M, ◌>>◌, map_err, set_err, and_then}
use librtmp.Buffer.{Buffer, peek, reserve, buffer_max_size, make_room}
use librtmp.Buffer.Wf.{IsValid, length-peek}
use librtmp.Buffer.Room.{Kept, MadeRoom, make_room-MadeRoom}
use librtmp.Buffer.Codec.{Emits}
use librtmp.Chunk.Writer.{
  basic_header, first_header_len, first_header, chunk_body_len, continuation, write_chunk_body,
  or_default, is_some, extended_timestamp_marker, rtmp_max_csid, rtmp_min_csid,
}
use librtmp.Chunk.Writer.Emit.{
  fragments, defragment, Emits-write_chunks, length-fragments, defragment-fragments,
}

pub reserved :
    (n : ℕ) (b : Buffer) (r : Buffer × Result (Unit {0}))
    → b.owned ≡ true
    → IsValid b
    → length (peek b) + n ≤ buffer_max_size
    → MadeRoom n b r
    → (c : Buffer) × (r ≡ (c, ok tt)) × Kept b c
reserved n b (c, ok tt) o v room (kept, fits, small) = (c, refl, kept)
reserved n b (c, err e) o v room (kept, code, inl big) = absurd (omega (arith, length-peek b v))
reserved n b (c, err e) o v room (kept, code, inr (fixed, _)) = absurd (cc (o, fixed))

-- A reservation of no more than what is then written does not fail.
pub Emits-reserved :
    (n : ℕ) (k : M Buffer (Unit {0})) (ys : List ℕ)
    → n ≤ length ys
    → Emits k ys
    → Emits (map_err ErrorCode.internal (reserve n) >> k) ys
unfolding reserve
Emits-reserved n k ys h p b v o room =
    let (c, e, kept) = reserved n b (make_room n b) o v (omega arith) (make_room-MadeRoom n b v) in
    let (d, run, w, seen, own) =
      p c kept.valid (kept.same_owned ∙ o) (omega (arith, ap length kept.unread)) in
    (
      d,
      ap (λ t. and_then (set_err ErrorCode.internal t) (λ _. k)) e ∙ run,
      w,
      seen ∙ ap (λ xs. xs ++ ys) kept.unread,
      own,
    )

-- The bytes of a payload behind its first header.
abbrev pub body_wire : ℕ → Option ℕ → ℕ → List ℕ → List ℕ
body_wire csid ext size payload = fragments (length payload) (continuation csid ext) size payload

pub length-continuation :
    (csid : ℕ) (ext : Option ℕ)
    → length (continuation csid ext) ≡ length (basic_header csid 3) + (if is_some ext then 4 else 0)
unfolding continuation
length-continuation csid none = omega arith
length-continuation csid (some ts) = omega (arith, length-append (basic_header csid 3) _)

pub or_default_pos : (size : ℕ) → 1 ≤ or_default size
or_default_pos size = ground arith

or_default_same : (size : ℕ) → 1 ≤ size → or_default size ≡ size
or_default_same size h = ground arith

-- The reservation is exact.
pub length-body_wire :
    (csid : ℕ) (ext : Option ℕ) (size : ℕ) (payload : List ℕ)
    → 1 ≤ size
    → length (body_wire csid ext size payload)
      ≡ chunk_body_len csid (length payload) size (is_some ext)
unfolding chunk_body_len
length-body_wire csid ext size payload h =
    rw
      (
        or_default_same size h,
        length-fragments (continuation csid ext) size h (length payload) payload (omega arith),
        length-continuation csid ext,
      )
      refl

pub Emits-write_chunk_body :
    (csid : ℕ) (payload : List ℕ) (size : ℕ) (ext : Option ℕ)
    → rtmp_min_csid ≤ csid
    → csid ≤ rtmp_max_csid
    → Emits (write_chunk_body csid payload size ext) (body_wire csid ext (or_default size) payload)
unfolding write_chunk_body
Emits-write_chunk_body csid payload size ext lo hi b v o room =
    rw (le→ltb rtmp_max_csid csid hi, le→ltb csid rtmp_min_csid lo)
      (Emits-reserved (chunk_body_len csid (length payload) (or_default size) (is_some ext)) _
        (body_wire csid ext (or_default size) payload)
        (omega (arith, length-body_wire csid ext (or_default size) payload (or_default_pos size)))
        (Emits-write_chunks (length payload) (continuation csid ext) (or_default size) payload
          (omega arith) (or_default_pos size))
        b v o room)

pub Emits-body_at :
    (csid : ℕ) (payload : List ℕ) (size : ℕ) (ext : Option ℕ)
    → rtmp_min_csid ≤ csid
    → csid ≤ rtmp_max_csid
    → 1 ≤ size
    → Emits (write_chunk_body csid payload size ext) (body_wire csid ext size payload)
Emits-body_at csid payload size ext lo hi h =
    subst (λ s. Emits (write_chunk_body csid payload size ext) (body_wire csid ext s payload))
      (or_default_same size h) (Emits-write_chunk_body csid payload size ext lo hi)

length-behind :
    (xs ys : List ℕ) (a b : ℕ) → length ys ≡ a + b → length (xs ++ ys) ≡ length xs + a + b
length-behind xs ys a b e = omega (arith, e, length-append xs ys)

pub length-first_header :
    (csid ts n ty sid : ℕ) → length (first_header csid 0 ts n ty sid) ≡ first_header_len csid 0 ts
unfolding first_header first_header_len
length-first_header csid ts n ty sid = elim (Bool-cases (leb extended_timestamp_marker ts)) [
  | inl ext ↦ rw ext (length-behind (basic_header csid 0) _ 11 4 refl)
  | inr plain ↦ rw plain (length-behind (basic_header csid 0) _ 11 0 refl)
]

-- A payload is written behind its first header in chunks that a receiver, which knows the chunk size
-- and the size of the headers between the chunks, puts together again; as many bytes are added as
-- are reserved. The chunk-stream id is one that can be encoded, and the buffer can grow far enough.
pub write_chunk_body_lem :
    (csid : ℕ) (payload : List ℕ) (size : ℕ) (ext : Option ℕ) (b : Buffer)
    → rtmp_min_csid ≤ csid
    → csid ≤ rtmp_max_csid
    → IsValid b
    → b.owned ≡ true
    → length (peek b) + chunk_body_len csid (length payload) (or_default size) (is_some ext)
      ≤ buffer_max_size
    → (c : Buffer) × (wire : List ℕ) × (write_chunk_body csid payload size ext b ≡ (c, ok tt))
      × IsValid c
      × (peek c ≡ peek b ++ wire)
      × (length wire ≡ chunk_body_len csid (length payload) (or_default size) (is_some ext))
      × (defragment
            (length payload)
            (length (continuation csid ext))
            (or_default size)
            (length payload)
            wire
          ≡ payload)
write_chunk_body_lem csid payload size ext b lo hi v o room =
    let wire : List ℕ = body_wire csid ext (or_default size) payload in
    let len = length-body_wire csid ext (or_default size) payload (or_default_pos size) in
    let (c, run, w, seen, own) =
      Emits-write_chunk_body csid payload size ext lo hi b v o (omega (arith, len)) in
    (
      c,
      wire,
      run,
      w,
      seen,
      len,
      defragment-fragments (continuation csid ext) (or_default size) (or_default_pos size)
          (length payload) payload (omega arith),
    )
