-- ===== src/Chunk/RoundTrip/Start.antt =====
-- src/chunk: chunk/reader.rs on the first chunk of a message, up to the state behind it.
use librtmp.Common.{
  ℕ, suc, ◌+◌, ◌-◌, ◌/◌, ◌^◌, min, ◌≤◌, ◌<◌, ◌≡◌, refl, sym, ap, ◌∙◌, true, false, Option, some,
  none, List, [], ◌++◌, arith, leb, length, length-append,
}
use librtmp.Common.Result.{ok}
use librtmp.Bytes.{at}
use librtmp.Buffer.{available, peek}
use librtmp.Buffer.Wf.{IsValid, length-peek}
use librtmp.Chunk.State.{ChunkStream, ChunkRegistry, get, map_or, can_get_or_create, fresh_stream}
use librtmp.Chunk.State.Inv.{RegInv}
use librtmp.Chunk.Reader.{ChunkMessage, Header, Input, ReadResult, chunk_read, apply_header}
use librtmp.Chunk.Reader.Peek.{
  Plan, go, be24_at, peek_bytes, peek_stream, effective_length, part_length, budget_exceeded,
}
use librtmp.Chunk.Reader.Peek
use librtmp.Chunk.Reader.Begin.{fresh_available, replaced}
use librtmp.Chunk.Reader.Facts.{ext_bytes}
use librtmp.Chunk.Reader.Consume.{header_in}
use librtmp.Chunk.Reader.Took.{Took-less, before, Took, behind_header}
use librtmp.Chunk.Writer.{basic_header, first_header, rtmp_min_csid, rtmp_max_csid}
use librtmp.Chunk.Writer.Emit.{fragments}
use librtmp.Chunk.RoundTrip.Header.{basic_header_read}
use librtmp.Chunk.RoundTrip.Finish.{Fields}
use librtmp.Chunk.RoundTrip.First.{plan, stream_first, bytes_from}
use librtmp.Chunk.RoundTrip.Begin.{
  starts, behind_first_header, length-first_bytes, timestamp_field, length_field, header_in_lem,
  ts_field, ts_field_ext,
}
use librtmp.Chunk.RoundTrip.Next.{front_there}
use librtmp.Chunk.RoundTrip.Step.{Stepped, step}

-- A connection that has room for a message of `n` bytes, and that reads chunks of `size` bytes.
pub record Accepts (reg : ChunkRegistry) (csid n size : ℕ) : Type 0 where
  pub chunk : map_or reg.default_size (λ s. s.chunk_size) (get reg csid) ≡ size
  pub longest : n ≤ reg.max_msg_length
  pub room :
      reg.reassembly_bytes_in_use - map_or 0 (λ s. available s.reassembly_buf) (get reg csid) + n
      ≤ reg.max_reassembly_bytes
  pub can_open : can_get_or_create reg csid ≡ true

part_first :
    (reg : ChunkRegistry) (n size : ℕ) (o : Option ChunkStream)
    → map_or reg.default_size (λ s. s.chunk_size) o ≡ size
    → part_length reg 0 n o ≡ min n size
unfolding part_length
part_first reg n size none e = ground arith
part_first reg n size (some s) e = ground arith

first_budget :
    (reg : ChunkRegistry) (k : ℕ) (o : Option ChunkStream)
    → reg.reassembly_bytes_in_use - map_or 0 (λ s. available s.reassembly_buf) o + k
      ≤ reg.max_reassembly_bytes
    → budget_exceeded reg 0 o k ≡ false
unfolding budget_exceeded
first_budget reg k none h = ground arith
first_budget reg k (some s) h = ground arith

replaced_lem :
    (csid size : ℕ) (o : Option ChunkStream)
    → available (map_or (fresh_stream csid size) (λ t. t) o).reassembly_buf
      ≡ map_or 0 (λ s. available s.reassembly_buf) o
replaced_lem csid size none = fresh_available csid size
replaced_lem csid size (some s) = refl

same_size :
    (csid size : ℕ) (o : Option ChunkStream)
    → (map_or (fresh_stream csid size) (λ t. t) o).chunk_size ≡ map_or size (λ s. s.chunk_size) o
unfolding fresh_stream
same_size csid size none = refl
same_size csid size (some s) = refl

first_known :
    (xs : List ℕ) (hs k : ℕ) (o : Option ChunkStream)
    → effective_length xs 0 hs o ≡ go k
    → k ≡ be24_at xs (hs + 3)
unfolding effective_length
first_known xs hs k o e = ground arith

module _ (m : ChunkMessage) (size : ℕ) (q rest : List ℕ) (i : Input) (v : RegInv i.reg)
    (w : IsValid i.buf) (lo : rtmp_min_csid ≤ m.csid) (hi : m.csid ≤ rtmp_max_csid)
    (short : m.msg_length < 2 ^ 24) (ht : m.timestamp < 2 ^ 32) (hsid : m.msg_stream_id < 2 ^ 32)
    (one : 1 ≤ size) (whole : length q ≡ m.msg_length)
    (acc : Accepts i.reg m.csid m.msg_length size) (fuel : ℕ) (chdr : List ℕ)
    (ahead : peek i.buf
      ≡ first_header m.csid 0 m.timestamp m.msg_length m.msg_type_id m.msg_stream_id
        ++ (fragments (suc fuel) chdr size q ++ rest)) where
  abbrev hs : ℕ
  hs = length (basic_header m.csid 0)

  abbrev tail : List ℕ
  tail = fragments (suc fuel) chdr size q ++ rest

  abbrev pub first_plan : Plan
  first_plan =
      plan (peek i.buf) (available i.buf) i.reg m.csid hs 0 (leb 0xFFFFFF m.timestamp)
        (min (length q) size)

  enough : hs + 11 + ext_bytes (leb 0xFFFFFF m.timestamp) + min (length q) size ≤ available i.buf
  enough = omega (
    arith,
    length-first_bytes m.csid m.timestamp m.msg_length m.msg_type_id m.msg_stream_id tail
        (peek i.buf) ahead,
    length-peek i.buf w,
    length-append (fragments (suc fuel) chdr size q) rest,
    front_there fuel chdr size q rest,
  )

  counted : part_length i.reg 0 m.msg_length (get i.reg m.csid) ≡ min (length q) size
  counted =
      part_first i.reg m.msg_length size (get i.reg m.csid) acc.chunk
      ∙ ap (λ k. min k size) (sym whole)

  some_header : 1 ≤ hs
  some_header =
      let (_, _, h) = basic_header_read m.csid 0 hs [] lo hi (omega arith) (omega arith) in h

  -- Phase 1 lets the chunk be read.
  peeked : peek_bytes (peek i.buf) (available i.buf) i.reg ≡ go first_plan
  peeked =
      let (zs, e) =
        starts m.csid m.timestamp m.msg_length m.msg_type_id m.msg_stream_id tail (peek i.buf)
          ahead in
      let (ef, eh, _) =
        basic_header_read m.csid 0 (available i.buf) zs lo hi (omega arith)
          (omega (arith, enough)) in
      bytes_from (peek i.buf) (available i.buf) i.reg 0 m.csid hs (go first_plan)
        (ap (λ xs. at xs 0 / 2 ^ 6) e ∙ ef) (omega arith)
        (ap (λ xs. Peek.basic_header xs (available i.buf)) e ∙ eh)
        (omega (arith, enough, some_header)) (omega (arith, enough))
        (stream_first (peek i.buf) (available i.buf) i.reg m.csid hs (get i.reg m.csid)
          (ts_field m.timestamp) m.msg_length (min (length q) size) (leb 0xFFFFFF m.timestamp)
          (timestamp_field m.csid m.timestamp m.msg_length m.msg_type_id m.msg_stream_id tail
            (peek i.buf) ahead ht short hsid)
          (ts_field_ext m.timestamp)
          (length_field m.csid m.timestamp m.msg_length m.msg_type_id m.msg_stream_id tail
            (peek i.buf) ahead ht short hsid)
          acc.longest counted
          (first_budget i.reg (min (length q) size) (get i.reg m.csid)
            (omega (arith, acc.room, whole)))
          acc.can_open enough)

  -- The first chunk is read.
  pub first_step :
      (msg : ChunkMessage)
      → (j : Input) × (res : ReadResult) × (chunk_read msg i ≡ (j, ok res))
        × Took first_plan m.msg_length msg i j res
        × Stepped fuel chdr size q rest [] m.msg_length first_plan i j res
  first_step msg =
      step fuel chdr size q rest [] i first_plan msg m.msg_length v w short refl
        (behind_first_header m.csid m.timestamp m.msg_length m.msg_type_id m.msg_stream_id tail
          (peek i.buf) ahead)
        refl (omega arith) peeked
        (λ k e.
          first_known (peek i.buf) hs k (get i.reg m.csid) e
          ∙ length_field m.csid m.timestamp m.msg_length m.msg_type_id m.msg_stream_id tail
              (peek i.buf) ahead ht short hsid)

  pub first_shrinks :
      (msg : ChunkMessage) (j : Input) (res : ReadResult)
      → Took first_plan m.msg_length msg i j res
      → available j.buf < available i.buf
  first_shrinks msg j res took =
      Took-less first_plan m.msg_length msg i j res took w (omega (arith, some_header))
        (omega (arith, enough, some_header))

  decoded : header_in first_plan (peek i.buf) ≡ record {
    timestamp = m.timestamp;
    msg_length = m.msg_length;
    msg_type_id = m.msg_type_id;
    msg_stream_id = m.msg_stream_id;
  }
  decoded =
      header_in_lem m.csid m.timestamp m.msg_length m.msg_type_id m.msg_stream_id tail (peek i.buf)
        ahead ht short hsid first_plan refl refl refl

  -- The header of the stream is the message's.
  pub first-Fields : Fields m size (behind_header first_plan i)
  unfolding apply_header
  first-Fields = record {
    timestamp = ap (λ (h : Header). h.timestamp) decoded;
    goal = ap (λ (h : Header). h.msg_length) decoded;
    kind = ap (λ (h : Header). h.msg_type_id) decoded;
    stream_id = ap (λ (h : Header). h.msg_stream_id) decoded;
    extended = refl;
    header = refl;
    chunk = same_size m.csid i.reg.default_size (get i.reg m.csid) ∙ acc.chunk;
  }

  -- The budget has room for the message.
  pub first_room :
      i.reg.reassembly_bytes_in_use - replaced 0 (before first_plan i) + m.msg_length
      ≤ i.reg.max_reassembly_bytes
  first_room = omega (arith, acc.room, replaced_lem m.csid i.reg.default_size (get i.reg m.csid))
