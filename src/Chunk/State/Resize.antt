-- ===== src/Chunk/State/Resize.antt =====
-- src/chunk/state.rs: a change of the chunk size reaches every live stream.
use librtmp.Common.{
  ℕ, zero, suc, ◌≤◌, ◌<◌, ◌≡◌, refl, sym, ap, ◌∙◌, inl, inr, Bool, true, false, ◌||◌, List, [], ◌∷◌,
  arith, ltb, length, if◌then◌else◌, All, Bool-cases,
}
use librtmp.Message.Control.{max_peer_chunk_size}
use librtmp.Chunk.State.{
  ChunkStream, ChunkRegistry, stream_at, resize_streams, set_all_chunk_size, default_chunk_size,
}
use librtmp.Chunk.State.Slots.{nth, total_bytes, active_count}
use librtmp.Chunk.State.Inv.{RegInv, StreamInv}

abbrev sized : ℕ → ChunkStream → ChunkStream
sized size s = if s.in_use then record s { chunk_size = size } else s

sized_fields :
    (size : ℕ) (s : ChunkStream)
    → ((sized size s).csid ≡ s.csid)
      × ((sized size s).in_use ≡ s.in_use)
      × ((sized size s).reassembly_buf ≡ s.reassembly_buf)
      × ((sized size s).reassembling ≡ s.reassembling)
sized_fields size s = ground arith

sized-StreamInv : (size : ℕ) (s : ChunkStream) → 1 ≤ size → StreamInv s → StreamInv (sized size s)
sized-StreamInv size s h v = of_use s.in_use
  where
    of_use : (b : Bool) → StreamInv (if b then record s { chunk_size = size } else s)
    of_use false = v
    of_use true = record {
      valid = v.valid;
      growable = v.growable;
      buffered = v.buffered;
      part = v.part;
      short = v.short;
      roomy = h;
      idle = v.idle;
    }

resize_each :
    (size : ℕ) (ss : List ChunkStream)
    → 1 ≤ size
    → All StreamInv ss
    → All StreamInv (resize_streams size ss)
unfolding resize_streams
resize_each size [] h v = tt
resize_each size (s ∷ ss) h (v, vs) = (sized-StreamInv size s h v, resize_each size ss h vs)

resize_sums :
    (size : ℕ) (ss : List ChunkStream)
    → (total_bytes (resize_streams size ss) ≡ total_bytes ss)
      × (active_count (resize_streams size ss) ≡ active_count ss)
      × (length (resize_streams size ss) ≡ length ss)
unfolding resize_streams total_bytes active_count
resize_sums size [] = (refl, refl, refl)
resize_sums size (s ∷ ss) =
    let (a, b, c) = resize_sums size ss in
    let (ec, eu, eb, ef) = sized_fields size s in (rw (eb, a) refl, rw (ef, b) refl, ap suc c)

nth-resize :
    (size : ℕ) (ss : List ChunkStream) (i : ℕ)
    → i < length ss
    → nth (resize_streams size ss) i ≡ sized size (nth ss i)
unfolding resize_streams
nth-resize size [] i h = absurd (omega arith)
nth-resize size (s ∷ ss) zero h = refl
nth-resize size (s ∷ ss) (suc i) h = nth-resize size ss i (omega arith)

-- The peer's chunk size is taken over within its range only, and the registry stays well formed.
pub set_all_chunk_size-RegInv :
    (size : ℕ) (reg : ChunkRegistry) → RegInv reg → RegInv (set_all_chunk_size size reg)
unfolding set_all_chunk_size
set_all_chunk_size-RegInv size reg v =
    elim (Bool-cases (ltb size default_chunk_size || ltb max_peer_chunk_size size)) [
      | inl out ↦ rw out v
      | inr fits ↦
          let (sb, sc, sl) = resize_sums size reg.streams in
          let roomy : 1 ≤ size = ground arith in
          rw fits (record {
            slots = λ csid idx e.
                let (lt, id, used) = v.slots csid idx e in
                let same = nth-resize size reg.streams idx lt in
                let (ec, eu, eb, ef) = sized_fields size (stream_at reg idx) in
                (
                  omega (arith, sl),
                  ap (λ (s : ChunkStream). s.csid) same ∙ ec ∙ id,
                  ap (λ (s : ChunkStream). s.in_use) same ∙ eu ∙ used,
                );
            each = resize_each size reg.streams roomy v.each;
            bytes = v.bytes ∙ sym sb;
            count = v.count ∙ sym sc;
            table = omega (arith, sl, v.table);
            budget = v.budget;
            cap = v.cap;
            word = v.word;
            default = roomy;
          })
    ]
