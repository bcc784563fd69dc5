-- ===== src/Chunk/State/Open.antt =====
-- src/chunk/state.rs: `get_or_create_index` opens the slot of a chunk-stream id.
use librtmp.Common.{
  ℕ, ◌≤◌, ◌<◌, ◌≡◌, refl, sym, ap, ◌∙◌, inl, inr, true, some, [], ◌∷◌, ◌++◌, arith, ◌==◌, length,
  All-append, length-append, Bool-cases, ==_iff,
}
use librtmp.Buffer.{available, with_capacity}
use librtmp.Chunk.State.{ChunkStream, ChunkRegistry, fresh_stream, insert_index, max_chunk_streams}
use librtmp.Chunk.State.Slots.{
  total_bytes, active_count, flag, total_bytes-append, active_count-append, nth-append_lt,
  nth-append_last,
}
use librtmp.Chunk.State.Inv.{StreamInv, RegInv, Slot}

pub fresh_stream-StreamInv : (csid size : ℕ) → 1 ≤ size → StreamInv (fresh_stream csid size)
unfolding fresh_stream with_capacity available
fresh_stream-StreamInv csid size h = record {
  valid = record { ordered = omega arith; within = omega arith };
  growable = refl;
  buffered = refl;
  part = omega arith;
  short = omega arith;
  roomy = h;
  idle = λ e. refl;
}

-- The registry with one more stream.
abbrev pub extended : ℕ → ChunkRegistry → ChunkRegistry
extended csid reg = record reg {
  streams = reg.streams ++ (fresh_stream csid reg.default_size ∷ []);
  csid_index = insert_index reg.csid_index csid (length reg.streams);
}

pub fresh_fields :
    (csid size : ℕ)
    → ((fresh_stream csid size).csid ≡ csid)
      × ((fresh_stream csid size).in_use ≡ true)
      × (available (fresh_stream csid size).reassembly_buf ≡ 0)
      × (flag (fresh_stream csid size) ≡ 0)
unfolding fresh_stream with_capacity available
fresh_fields csid size = (refl, refl, refl, refl)

extended_slots :
    (reg : ChunkRegistry) (csid : ℕ)
    → RegInv reg
    → (id idx : ℕ) → insert_index reg.csid_index csid (length reg.streams) id ≡ some idx
    → Slot (extended csid reg) id idx
extended_slots reg csid v id idx e =
    let (fc, fu, fb, ff) = fresh_fields csid reg.default_size in
    let len = length-append reg.streams (fresh_stream csid reg.default_size ∷ []) in
    elim (Bool-cases (id == csid)) [
      | inl same ↦
          let k : length reg.streams ≡ idx = ground arith in
          let i : csid ≡ id = sym ((==_iff id csid).0 same) in
          let at_end = nth-append_last reg.streams (fresh_stream csid reg.default_size) in
          rw (← k) (
            omega (arith, len),
            ap (λ (s : ChunkStream). s.csid) at_end ∙ fc ∙ i,
            ap (λ (s : ChunkStream). s.in_use) at_end ∙ fu,
          )
      | inr other ↦
          let (lt, c, u) = v.slots id idx (ground arith) in
          let before = nth-append_lt reg.streams (fresh_stream csid reg.default_size ∷ []) idx lt in
          (
            omega (arith, len),
            ap (λ (s : ChunkStream). s.csid) before ∙ c,
            ap (λ (s : ChunkStream). s.in_use) before ∙ u,
          )
    ]

fresh_sums :
    (csid size : ℕ)
    → (total_bytes (fresh_stream csid size ∷ []) ≡ 0)
      × (active_count (fresh_stream csid size ∷ []) ≡ 0)
unfolding total_bytes active_count
fresh_sums csid size = let (fc, fu, a, f) = fresh_fields csid size in (omega arith, omega arith)

pub extended-RegInv :
    (reg : ChunkRegistry) (csid : ℕ)
    → RegInv reg
    → length reg.streams < max_chunk_streams
    → RegInv (extended csid reg)
extended-RegInv reg csid v h =
    let s = fresh_stream-StreamInv csid reg.default_size v.default in
    let (zb, zc) = fresh_sums csid reg.default_size in
    record {
      slots = extended_slots reg csid v;
      each = All-append StreamInv reg.streams _ v.each (s, tt);
      bytes = omega (
        arith,
        v.bytes,
        zb,
        total_bytes-append reg.streams (fresh_stream csid reg.default_size ∷ []),
      );
      count = omega (
        arith,
        v.count,
        zc,
        active_count-append reg.streams (fresh_stream csid reg.default_size ∷ []),
      );
      table = omega (arith, length-append reg.streams (fresh_stream csid reg.default_size ∷ []));
      budget = v.budget;
      cap = v.cap;
      word = v.word;
      default = v.default;
    }
