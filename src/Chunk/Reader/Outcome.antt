-- ===== src/Chunk/Reader/Outcome.antt =====
-- src/chunk/reader.rs: what the end of a chunk leaves behind.
use librtmp.Common.{
  ℕ, ◌+◌, ◌-◌, ◌^◌, ◌<◌, ◌≡◌, refl, sym, ap, ◌∙◌, true, false, List, ◌++◌, arith, length,
  length-append,
}
use librtmp.Common.Result.{ok}
use librtmp.Buffer.{Buffer, available, peek, take_out}
use librtmp.Buffer.Wf.{IsValid, length-peek}
use librtmp.Buffer.Queue.{take_out_lem}
use librtmp.Chunk.State.{ChunkStream, ChunkRegistry, stream_at, get_or_create_index}
use librtmp.Chunk.State.Slots.{flag}
use librtmp.Chunk.State.Inv.{RegInv, with_slot-RegInv, stream_counted}
use librtmp.Chunk.State.Lookup.{Opened}
use librtmp.Chunk.Reader.{ChunkMessage, Input, delivered}
use librtmp.Chunk.Reader.Peek.{Plan}
use librtmp.Chunk.Reader.Facts.{Ready}
use librtmp.Chunk.Reader.Begin.{Begun, begun_budget}
use librtmp.Chunk.Reader.Run.{put_slot, loaded, cleared}
use librtmp.Chunk.Reader.Take.{part, target, others, target-Begun, length-part, target_fits}

module _ (i : Input) (p : Plan) (msg : ChunkMessage) (v : RegInv i.reg) (w : IsValid i.buf)
    (r : Ready (peek i.buf) (available i.buf) i.reg p) (next : ChunkRegistry) (idx : ℕ)
    (opened : get_or_create_index p.csid i.reg ≡ (next, ok idx)) (o : Opened i.reg p.csid next idx)
    (small : r.eff_len < 2 ^ 24) (c : Buffer) (cv : IsValid c) (cg : c.owned ≡ true) where
  abbrev goal : ChunkStream
  goal = target i p msg v w r next idx opened o

  abbrev bytes : List ℕ
  bytes = part i p msg v w r next idx opened o

  abbrev pub full : ChunkStream
  full = loaded bytes c goal

  abbrev sum : ℕ
  sum = others i p msg v w r next idx opened o + p.to_read

  goal-Begun : Begun p.fmt r.eff_len p.to_read (stream_at next idx) goal
  goal-Begun = target-Begun i p msg v w r next idx opened o

  pub full_read : full.reassembly_bytes_read ≡ goal.reassembly_bytes_read + p.to_read
  full_read =
      let l = length-part i p msg v w r next idx opened o in
      let f = target_fits i p msg v w r next idx opened o in let g = goal-Begun.goal in omega arith

  module _ (ce : peek c ≡ peek goal.reassembly_buf ++ bytes) where
    pub full_available : available c ≡ goal.reassembly_bytes_read + p.to_read
    full_available = omega (
      arith,
      length-peek c cv,
      ap length ce,
      length-append (peek goal.reassembly_buf) bytes,
      length-peek goal.reassembly_buf goal-Begun.valid,
      goal-Begun.buffered,
      length-part i p msg v w r next idx opened o,
    )

    abbrev pub partial_reg : ChunkRegistry
    partial_reg =
        put_slot next idx o.slot.0 (cleared true full) sum (next.reassembling_count + 1 - flag full)

    pub partial-RegInv : full.reassembly_bytes_read < full.type0_msg_length → RegInv partial_reg
    partial-RegInv lt =
        let tb = goal-Begun in
        let (cb, cc) = stream_counted next o.inv idx o.slot.0 in
        let same : flag full ≡ flag (stream_at next idx) = rw tb.same_flag in
        let kept = tb.kept in
        let read_so_far = tb.buffered in
        with_slot-RegInv next o.inv idx o.slot.0 (λ _. cleared true full) sum
          (next.reassembling_count + 1 - flag full) (tb.same_csid, tb.same_use)
          (record {
            valid = cv;
            growable = cg;
            buffered = full_available ∙ sym full_read;
            part = omega arith;
            short = omega (arith, tb.goal, small);
            roomy = tb.roomy;
            idle = λ e. absurd (ground arith);
          })
          (omega (arith, full_available, kept, read_so_far, cb)) (omega (arith, same, cc))
          (omega (arith, begun_budget (peek i.buf) (available i.buf) i.reg p r next idx o v.budget))
          (omega (arith, same, cc, o.below_cap))

    abbrev pub complete_reg : ChunkRegistry
    complete_reg =
        put_slot next idx o.slot.0 (delivered (cleared false full)) (sum - available c)
          (next.reassembling_count + 0 - flag full)

    pub complete-RegInv : RegInv complete_reg
    complete-RegInv =
        let tb = goal-Begun in
        let (cb, cc) = stream_counted next o.inv idx o.slot.0 in
        let same : flag full ≡ flag (stream_at next idx) = rw tb.same_flag in
        let kept = tb.kept in
        let read_so_far = tb.buffered in
        let (tv, te, tt1, to) = take_out_lem c cv in
        let empty : available (take_out c).0 ≡ 0 =
          omega (arith, length-peek (take_out c).0 tv, ap length te) in
        with_slot-RegInv next o.inv idx o.slot.0 (λ _. delivered (cleared false full))
          (sum - available c) (next.reassembling_count + 0 - flag full) (tb.same_csid, tb.same_use)
          (record {
            valid = tv;
            growable = to ∙ cg;
            buffered = empty;
            part = omega arith;
            short = omega (arith, tb.goal, small);
            roomy = tb.roomy;
            idle = λ e. refl;
          })
          (omega (arith, full_available, kept, read_so_far, cb, empty)) (omega (arith, same, cc))
          (omega (arith, begun_budget (peek i.buf) (available i.buf) i.reg p r next idx o v.budget))
          (omega (arith, same, cc, o.inv.cap))
