-- ===== src/Chunk/Reader/Take.antt =====
-- src/chunk/reader.rs: a chunk that phase 1 lets through is read to its end, without an error.
use librtmp.Common.{
  ℕ, ◌+◌, ◌-◌, ◌^◌, ◌≤◌, ◌<◌, ◌≡◌, refl, ◌∙◌, Bool, true, List, ◌++◌, arith, length, take, drop,
  drop-drop, length-drop, length-take_le,
}
use librtmp.Common.Result.{Result, ok, err}
use librtmp.Buffer.{Buffer, available, peek, write}
use librtmp.Buffer.Wf.{IsValid, length-peek}
use librtmp.Buffer.Queue.{write-Wrote}
use librtmp.Buffer.Codec.{write_back}
use librtmp.Chunk.State.{ChunkStream, ChunkRegistry, stream_at, get_or_create_index}
use librtmp.Chunk.State.Inv.{RegInv}
use librtmp.Chunk.State.Lookup.{Opened, OpenResult}
use librtmp.Chunk.Reader.{ChunkMessage, Input, take_chunk, apply_header, finish, chunk_part}
use librtmp.Chunk.Reader.Peek.{Plan}
use librtmp.Chunk.Reader.Facts.{Ready, field_bytes, ext_bytes}
use librtmp.Chunk.Reader.Consume.{header_in, Parses-consume_header, Parses-take}
use librtmp.Chunk.Reader.Begin.{started, replaced, headed, Begun, begun, begun_header, begun_budget}
use librtmp.Chunk.Reader.Run.{
  put_slot, loaded, restarted, stream_at-put_slot, modify-put_slot, read_part_run,
}

-- The bytes of the chunk's header.
abbrev pub header_bytes : Plan → ℕ
header_bytes p = p.header_size + field_bytes p.fmt + ext_bytes p.ext_ts

-- `get_or_create_index` does what phase 1 has found.
pub open_run :
    (reg : ChunkRegistry) (csid : ℕ) (can : Bool) (r : ChunkRegistry × Result ℕ)
    → can ≡ true
    → OpenResult reg csid can r
    → (next : ChunkRegistry) × (idx : ℕ) × (r ≡ (next, ok idx)) × Opened reg csid next idx
open_run reg csid can (next, ok idx) e (_, o) = (next, idx, refl, o)
open_run reg csid can (next, err x) e (c, s, k) = absurd (cc (e, c))

module _ (i : Input) (p : Plan) (msg : ChunkMessage) (v : RegInv i.reg) (w : IsValid i.buf)
    (r : Ready (peek i.buf) (available i.buf) i.reg p) (next : ChunkRegistry) (idx : ℕ)
    (opened : get_or_create_index p.csid i.reg ≡ (next, ok idx))
    (o : Opened i.reg p.csid next idx) where
  -- The payload bytes, the stream that takes them, and the sum of the others.
  abbrev pub part : List ℕ
  part = take p.to_read (drop (header_bytes p) (peek i.buf))

  abbrev pub target : ChunkStream
  target = headed p (header_in p (peek i.buf)) (stream_at next idx)

  abbrev pub others : ℕ
  others = next.reassembly_bytes_in_use - replaced p.fmt (stream_at next idx)

  pub target-Begun : Begun p.fmt r.eff_len p.to_read (stream_at next idx) target
  target-Begun = begun (peek i.buf) (available i.buf) i.reg p r next idx o

  pub length-part : length part ≡ p.to_read
  length-part =
      length-take_le p.to_read (drop (header_bytes p) (peek i.buf))
        (omega (arith, r.fits, length-peek i.buf w, length-drop (header_bytes p) (peek i.buf)))

  pub target_fits : target.reassembly_bytes_read + p.to_read ≤ target.type0_msg_length
  target_fits = part_fits target p.to_read target-Begun.part target-Begun.reads
    where
      part_fits :
          (t : ChunkStream) (n : ℕ)
          → t.reassembly_bytes_read ≤ t.type0_msg_length
          → chunk_part t ≡ n
          → t.reassembly_bytes_read + n ≤ t.type0_msg_length
      part_fits t n h e = unfold chunk_part in omega arith

  -- The chunk is consumed and its payload is stored.
  pub loaded_run :
      r.eff_len < 2 ^ 24
      → (b c : Buffer) × (take_chunk p msg i
          ≡ finish p msg idx (record {
            buf = b;
            reg =
                put_slot next idx o.slot.0
                  (loaded part c target)
                  (others + p.to_read)
                  next.reassembling_count;
          }))
        × IsValid b
        × (peek b ≡ drop (header_bytes p + p.to_read) (peek i.buf))
        × (b.owned ≡ i.buf.owned)
        × IsValid c
        × (peek c ≡ peek target.reassembly_buf ++ part)
        × (c.owned ≡ true)
  unfolding take_chunk
  loaded_run small =
      let tb = target-Begun in
      let xs : List ℕ = peek i.buf in
      let avail = length-peek i.buf w in
      let fits = r.fits in
      let (b1, e1, w1, seen1, own1) =
        Parses-consume_header p xs r.format (omega (arith, fits, avail)) i.buf w refl in
      let (b2, e2, w2, seen2, own2) =
        Parses-take p.to_read (drop (header_bytes p) xs)
          (omega (arith, fits, avail, length-drop (header_bytes p) xs)) b1 w1 seen1 in
      let (c, e3, w3, seen3, own3) =
        write_back part target.reassembly_buf (write part target.reassembly_buf) tb.valid
          tb.growable
          (omega (
            arith,
            small,
            tb.goal,
            tb.buffered,
            target_fits,
            length-part,
            length-peek target.reassembly_buf tb.valid,
          ))
          (write-Wrote part target.reassembly_buf tb.valid) in
      (
        b2,
        c,
        rw (e1, r.in_budget, opened)
            (rw (restarted next idx o.slot.0 p.fmt) (
              rw
                (
                  stream_at-put_slot next idx o.slot.0 (started p.fmt (stream_at next idx)) others
                      next.reassembling_count,
                  begun_header (peek i.buf) (available i.buf) i.reg p r next idx o,
                )
                (rw
                  (modify-put_slot next idx o.slot.0 (apply_header p.fmt p.ext_ts (header_in p xs))
                    (started p.fmt (stream_at next idx)) others next.reassembling_count)
                  (rw
                    (
                      read_part_run next idx o.slot.0 b1 b2 c target part (length part) others
                          next.reassembling_count (rw tb.reads e2) e3
                          (omega (
                            arith,
                            tb.reads,
                            o.inv.word,
                            begun_budget (peek i.buf) (available i.buf) i.reg p r next idx o
                                v.budget,
                          )),
                      tb.reads,
                    )
                    refl)))),
        w2,
        seen2 ∙ drop-drop p.to_read (header_bytes p) xs,
        own2 ∙ own1,
        w3,
        seen3,
        own3,
      )
