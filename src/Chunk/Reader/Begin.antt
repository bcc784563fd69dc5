-- ===== src/Chunk/Reader/Begin.antt =====
-- src/chunk/reader.rs: the stream behind a chunk's header, before its payload is added.
use librtmp.Common.{
  ℕ, ◌+◌, ◌-◌, ◌≤◌, ◌<◌, ◌≡◌, refl, ap, inl, inr, true, false, Option, some, none, List, arith, ltb,
  leb, length, drop, if◌then◌else◌, get_or-drop, Bool-cases, ltb→lt, ltb→le,
}
use librtmp.Buffer.{Buffer, available, peek, with_capacity}
use librtmp.Buffer
use librtmp.Buffer.Wf.{IsValid, length-peek}
use librtmp.Buffer.Queue.{reset_lem}
use librtmp.Chunk.State.{ChunkStream, ChunkRegistry, fresh_stream, map_or, get, stream_at}
use librtmp.Chunk.State.Inv.{stream_inv, StreamInv}
use librtmp.Chunk.State.Lookup.{Opened}
use librtmp.Chunk.Reader.{Header, apply_header, lacks_header, chunk_part}
use librtmp.Chunk.Reader.Peek.{Plan, go, be24_at, effective_length, part_length, budget_exceeded}
use librtmp.Chunk.Reader.Facts.{Ready, Continues}
use librtmp.Chunk.Reader.Consume.{header_in}

-- What `restart` does to the stream, and the buffered bytes that it gives up.
abbrev pub started : ℕ → ChunkStream → ChunkStream
started fmt s =
    if leb fmt 1
    then record s { reassembly_bytes_read = 0; reassembly_buf = Buffer.reset s.reassembly_buf }
    else s

abbrev pub replaced : ℕ → ChunkStream → ℕ
replaced fmt s = if leb fmt 1 then available s.reassembly_buf else 0

-- The stream that the payload is added to.
abbrev pub headed : Plan → Header → ChunkStream → ChunkStream
headed p h s = apply_header p.fmt p.ext_ts h (started p.fmt s)

pub record Begun (fmt eff_len to_read : ℕ) (s t : ChunkStream) : Type 0 where
  pub valid : IsValid t.reassembly_buf
  pub growable : t.reassembly_buf.owned ≡ true
  pub buffered : available t.reassembly_buf ≡ t.reassembly_bytes_read
  pub kept : available t.reassembly_buf + replaced fmt s ≡ available s.reassembly_buf
  pub goal : t.type0_msg_length ≡ eff_len
  pub part : t.reassembly_bytes_read ≤ t.type0_msg_length
  pub roomy : 1 ≤ t.chunk_size
  pub reads : chunk_part t ≡ to_read
  pub same_csid : t.csid ≡ s.csid
  pub same_use : t.in_use ≡ s.in_use
  pub same_flag : t.reassembling ≡ s.reassembling

available-reset : (b : Buffer) → IsValid b → available (Buffer.reset b) ≡ 0
available-reset b v =
    let (w, e, own) = reset_lem b v in omega (arith, length-peek (Buffer.reset b) w, ap length e)

-- Of a header of format 0 or 1 the length is what phase 1 has seen.
pub be24-drop : (i n : ℕ) (xs : List ℕ) → be24_at (drop n xs) i ≡ be24_at xs (n + i)
be24-drop i n xs =
    let e : n + (i + 1) ≡ n + i + 1 = omega arith in
    let k : n + (i + 2) ≡ n + i + 2 = omega arith in
    rw (get_or-drop i n xs 0, get_or-drop (i + 1) n xs 0, get_or-drop (i + 2) n xs 0, e, k)

module _ (p : Plan) (xs : List ℕ) (eff : ℕ) where
  first_length :
      (o : Option ChunkStream)
      → p.fmt < 2
      → effective_length xs p.fmt p.header_size o ≡ go eff
      → (header_in p xs).msg_length ≡ eff
  unfolding effective_length
  first_length o k e = ground (arith, be24-drop 3 p.header_size xs)

module _ (p : Plan) (h : Header) (reg : ChunkRegistry) (eff : ℕ) where
  -- A chunk that starts a message.
  begin_first :
      (o : Option ChunkStream) (s : ChunkStream)
      → StreamInv s
      → p.fmt < 2
      → s.chunk_size ≡ map_or reg.default_size (λ t. t.chunk_size) o
      → h.msg_length ≡ eff
      → p.to_read ≡ part_length reg p.fmt eff o
      → Begun p.fmt eff p.to_read s (headed p h s)
  unfolding apply_header part_length chunk_part
  begin_first o s v k c e r =
      let (w, seen, own) = reset_lem s.reassembly_buf v.valid in
      let zero_left = available-reset s.reassembly_buf v.valid in
      record {
        valid = ground arith;
        growable = ground (arith, v.growable);
        buffered = ground arith;
        kept = ground arith;
        goal = ground arith;
        part = ground arith;
        roomy = ground (arith, v.roomy);
        reads = ground arith;
        same_csid = ground arith;
        same_use = ground arith;
        same_flag = ground arith;
      }

  -- A chunk that goes on with a known header.
  begin_next :
      (s : ChunkStream)
      → StreamInv s
      → 2 ≤ p.fmt
      → s.type0_msg_length ≡ eff
      → p.to_read ≡ part_length reg p.fmt eff (some s)
      → Begun p.fmt eff p.to_read s (headed p h s)
  unfolding apply_header part_length chunk_part
  begin_next s v k e r = record {
    valid = ground (arith, v.valid);
    growable = ground (arith, v.growable);
    buffered = ground (arith, v.buffered);
    kept = ground arith;
    goal = ground arith;
    part = ground (arith, v.part);
    roomy = ground (arith, v.roomy);
    reads = ground arith;
    same_csid = ground arith;
    same_use = ground arith;
    same_flag = ground arith;
  }

known_length :
    (p : Plan) (xs : List ℕ) (eff : ℕ) (s : ChunkStream)
    → 2 ≤ p.fmt
    → effective_length xs p.fmt p.header_size (some s) ≡ go eff
    → s.type0_msg_length ≡ eff
unfolding effective_length
known_length p xs eff s k e = ground arith

pub fresh_available : (csid size : ℕ) → available (fresh_stream csid size).reassembly_buf ≡ 0
unfolding fresh_stream available with_capacity
fresh_available csid size = refl

fresh_size : (csid size : ℕ) → (fresh_stream csid size).chunk_size ≡ size
unfolding fresh_stream
fresh_size csid size = refl

-- Formats 2 and 3 find a header.
has_header :
    (fmt : ℕ) (o : Option ChunkStream) (s d : ChunkStream)
    → s ≡ map_or d (λ t. t) o
    → Continues fmt o
    → lacks_header fmt (started fmt s) ≡ false
unfolding lacks_header
has_header fmt none s d e c = ground arith
has_header fmt (some t) s d e (inl low) = ground arith
has_header fmt (some t) s d e (inr (h, _)) = ground arith

module _ (xs : List ℕ) (avail : ℕ) (reg : ChunkRegistry) (p : Plan) (r : Ready xs avail reg p)
    (next : ChunkRegistry) (idx : ℕ) (w : Opened reg p.csid next idx) where
  pub opened_inv : StreamInv (stream_at next idx)
  opened_inv = stream_inv next w.inv idx w.slot.0

  begin_of :
      (o : Option ChunkStream)
      → get reg p.csid ≡ o
      → Begun p.fmt r.eff_len p.to_read
          (stream_at next idx)
          (headed p (header_in p xs) (stream_at next idx))
  begin_of none e =
      let low : p.fmt < 2 = rw e at r.continues in
      begin_first p (header_in p xs) reg r.eff_len none (stream_at next idx) opened_inv low
        (rw (w.stream, e) (fresh_size p.csid reg.default_size))
        (first_length p xs r.eff_len none low (rw e at r.length_known)) (rw e at r.part)
  begin_of (some s) e = elim (Bool-cases (ltb p.fmt 2)) [
    | inl low ↦
        begin_first p (header_in p xs) reg r.eff_len (some s) (stream_at next idx) opened_inv
          (ltb→lt _ _ low) (rw (w.stream, e))
          (first_length p xs r.eff_len (some s) (ltb→lt _ _ low) (rw e at r.length_known))
          (rw e at r.part)
    | inr high ↦
        let known : effective_length xs p.fmt p.header_size (some s) ≡ go r.eff_len =
          rw e at r.length_known in
        let same : stream_at next idx ≡ s = rw (w.stream, e) in
        begin_next p (header_in p xs) reg r.eff_len (stream_at next idx) opened_inv
          (ltb→le _ _ high) (rw same (known_length p xs r.eff_len s (ltb→le _ _ high) known))
          (rw same (rw e at r.part))
  ]

  -- The stream behind the header is ready for the payload that phase 1 has counted.
  pub begun :
      Begun p.fmt r.eff_len p.to_read
        (stream_at next idx)
        (headed p (header_in p xs) (stream_at next idx))
  begun = begin_of (get reg p.csid) refl

  pub begun_header : lacks_header p.fmt (started p.fmt (stream_at next idx)) ≡ false
  begun_header =
      has_header p.fmt (get reg p.csid) (stream_at next idx) (fresh_stream p.csid reg.default_size)
        w.stream r.continues

  budget_of :
      (o : Option ChunkStream)
      → get reg p.csid ≡ o
      → reg.reassembly_bytes_in_use ≤ reg.max_reassembly_bytes
      → next.reassembly_bytes_in_use - replaced p.fmt (stream_at next idx) + p.to_read
        ≤ next.max_reassembly_bytes
  unfolding budget_exceeded
  budget_of none e h =
      let test : budget_exceeded reg p.fmt none p.to_read ≡ false = rw e at r.in_budget in
      let same : stream_at next idx ≡ fresh_stream p.csid reg.default_size = rw (w.stream, e) in
      let sb = w.same_bytes in
      let sl = w.same_limit in rw same (ground (arith, fresh_available p.csid reg.default_size))
  budget_of (some s) e h =
      let test : budget_exceeded reg p.fmt (some s) p.to_read ≡ false = rw e at r.in_budget in
      let same : stream_at next idx ≡ s = rw (w.stream, e) in
      let sb = w.same_bytes in let sl = w.same_limit in rw same (ground arith)

  -- Without the bytes that are given up the payload is within the connection's budget.
  pub begun_budget :
      reg.reassembly_bytes_in_use ≤ reg.max_reassembly_bytes
      → next.reassembly_bytes_in_use - replaced p.fmt (stream_at next idx) + p.to_read
        ≤ next.max_reassembly_bytes
  begun_budget h = budget_of (get reg p.csid) refl h
