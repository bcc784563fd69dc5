-- ===== src/Chunk/RoundTrip/Step.antt =====
-- src/chunk/reader.rs: a chunk whose payload is part of what chunk/writer.rs has written.
use librtmp.Common.{
  ℕ, suc, ◌+◌, ◌^◌, min, ◌<◌, ◌≡◌, sym, ap, ◌∙◌, subst, ◌⊎◌, inl, inr, true, false, some, List,
  ◌++◌, arith, leb, length, take, drop, Bool-cases, length-append, length-take_le, take_all,
  drop-drop, leb→le, leb→lt,
}
use librtmp.Common.Result.{ok}
use librtmp.Buffer.{available, peek}
use librtmp.Buffer.Wf.{IsValid}
use librtmp.Chunk.State.{ChunkStream, get}
use librtmp.Chunk.State.Inv.{RegInv}
use librtmp.Chunk.State.Pending.{pending}
use librtmp.Chunk.Reader.{ChunkMessage, Input, ReadResult, chunk_read, after_peek}
use librtmp.Chunk.Reader.Peek.{Plan, go, peek_chunk, peek_bytes, effective_length}
use librtmp.Chunk.Reader.Facts.{peek_bytes-Ready}
use librtmp.Chunk.Reader.Take.{header_bytes}
use librtmp.Chunk.Reader.Took.{Took, Left, Handed, prior, collected, take_chunk-Took}
use librtmp.Chunk.Writer.Emit.{fragments}
use librtmp.Chunk.RoundTrip.Next.{front, behind_last, behind_more}

-- What the chunk leads to: the message is there, or the bytes of the next chunk are in front.
abbrev pub Stepped :
    ℕ → List ℕ → ℕ → List ℕ → List ℕ → List ℕ → ℕ → Plan → Input → Input → ReadResult → Type 0
Stepped fuel chdr size q rest got n p i j res =
    ((leb (length q) size ≡ true)
      × (res.rc ≡ 1)
      × (res.payload ≡ some (got ++ q))
      × (res.msg.is_complete ≡ true)
      × (res.msg.csid ≡ p.csid)
      × (res.msg.msg_length ≡ n)
      × (peek j.buf ≡ rest)
      × Handed p i j res)
    ⊎ ((leb (length q) size ≡ false)
        × (res.rc ≡ 0)
        × (collected p i ≡ got ++ take size q)
        × (pending j.reg p.csid ≡ got ++ take size q)
        × (peek j.buf ≡ chdr ++ (fragments fuel chdr size (drop size q) ++ rest))
        × ((s : ChunkStream) × Left p i j s))

module _ (fuel : ℕ) (chdr : List ℕ) (size : ℕ) (q rest got : List ℕ) (i : Input) (p : Plan)
    (msg : ChunkMessage) (n : ℕ) (v : RegInv i.reg) (w : IsValid i.buf) (small : n < 2 ^ 24)
    (before : prior p.fmt i.reg p.csid ≡ got)
    (ahead : drop (header_bytes p) (peek i.buf) ≡ fragments (suc fuel) chdr size q ++ rest)
    (reads : p.to_read ≡ min (length q) size) (total : length got + length q ≡ n) where
  holds : collected p i ≡ got ++ take size q
  holds = λ k.
      before k
      ++ (ap (take p.to_read) ahead
            ∙ ap (λ m. take m (fragments (suc fuel) chdr size q ++ rest)) reads
            ∙ front fuel chdr size q rest)
          k

  behind :
      drop (header_bytes p + p.to_read) (peek i.buf)
      ≡ drop (min (length q) size) (fragments (suc fuel) chdr size q ++ rest)
  behind = sym (drop-drop p.to_read (header_bytes p) (peek i.buf)) ∙ (λ k. drop (reads k) (ahead k))

  held : length (collected p i) ≡ length got + length (take size q)
  held = ap length holds ∙ length-append got (take size q)

  pub stepped_last :
      (j : Input) (res : ReadResult)
      → Took p n msg i j res
      → leb (length q) size ≡ true
      → Stepped fuel chdr size q rest got n p i j res
  stepped_last j res t last =
      let all_of_it : take size q ≡ q = take_all size q (leb→le _ _ last) in
      let len : length (take size q) ≡ length q = ap length all_of_it in
      elim t.progress [
        | inl (less, _, _) ↦ absurd (omega (arith, held, len, total))
        | inr (_, one, out, whole, id, announced, _) ↦ elim t.detail [
          | inl (zero_rc, _) ↦ absurd (cc (zero_rc, one))
          | inr (_, handed) ↦ inl (
            last,
            one,
            out ∙ ap some (holds ∙ ap (λ ys. got ++ ys) all_of_it),
            whole,
            id,
            announced,
            t.rest ∙ behind ∙ behind_last fuel chdr size q rest last,
            handed,
          )
        ]
      ]

  pub stepped_more :
      (j : Input) (res : ReadResult)
      → Took p n msg i j res
      → leb (length q) size ≡ false
      → Stepped fuel chdr size q rest got n p i j res
  stepped_more j res t more =
      let len : length (take size q) ≡ size =
        length-take_le size q (omega (arith, leb→lt _ _ more)) in
      elim t.progress [
        | inr (same, _, _, _, _, _, _) ↦ absurd (omega (arith, held, len, total, leb→lt _ _ more))
        | inl (_, waits, kept) ↦ elim t.detail [
          | inr (one, _) ↦ absurd (cc (one, ap (λ (r : ReadResult). r.rc) waits))
          | inl (zero_rc, (s, left)) ↦ inr (
            more,
            zero_rc,
            holds,
            kept ∙ holds,
            t.rest ∙ behind ∙ behind_more fuel chdr size q rest more,
            (s, left),
          )
        ]
      ]

  -- One call of `chunk_read` on the chunk.
  pub step :
      peek_bytes (peek i.buf) (available i.buf) i.reg ≡ go p
      → ((k : ℕ)
          → effective_length (peek i.buf) p.fmt p.header_size (get i.reg p.csid) ≡ go k
          → k ≡ n)
      → (j : Input) × (res : ReadResult) × (chunk_read msg i ≡ (j, ok res))
        × Took p n msg i j res
        × Stepped fuel chdr size q rest got n p i j res
  unfolding chunk_read peek_chunk
  step e known =
      let (r, _) = peek_bytes-Ready (peek i.buf) (available i.buf) i.reg p e in
      let same : r.eff_len ≡ n = known r.eff_len r.length_known in
      let (j, res, run, t) = take_chunk-Took i p msg v w r (rw same small) in
      let t' : Took p n msg i j res = subst (λ m. Took p m msg i j res) same t in
      (
        j,
        res,
        ap (λ m. after_peek msg m i) e ∙ run,
        t',
        elim (Bool-cases (leb (length q) size)) [
          | inl last ↦ stepped_last j res t' last
          | inr more ↦ stepped_more j res t' more
        ],
      )
