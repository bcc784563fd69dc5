-- ===== src/Chunk/Reader/Semantics.antt =====
-- src/chunk/reader.rs: `chunk_read` on every input.
use librtmp.Common.{
  ℕ, zero, suc, ◌+◌, ◌^◌, ◌<◌, ◌≡◌, refl, sym, ap, ◌∙◌, subst, ◌⊎◌, inl, inr, Option, leb,
  if◌then◌else◌, some, none, List, [], ◌∷◌, arith, length, All, All-drop,
}
use librtmp.Common.Result.{Result, ok, err, ErrorCode}
use librtmp.Bytes.{IsByte, at}
use librtmp.Buffer.{Buffer, available, peek}
use librtmp.Buffer.Wf.{IsValid}
use librtmp.Chunk.State.{ChunkStream, ChunkRegistry, get, map_or}
use librtmp.Chunk.State.Inv.{RegInv, StreamInv}
use librtmp.Chunk.State.Lookup.{get_inv}
use librtmp.Chunk.State.Pending.{pending}
use librtmp.Chunk.Reader.{ChunkMessage, Input, ReadResult, after_peek, chunk_read}
use librtmp.Chunk.Reader.Peek.{
  Plan, Peeked, go, wait, reject, be24_at, effective_length, peek_bytes, peek_chunk,
}
use librtmp.Chunk.Reader.Facts.{peek_bytes-Ready}
use librtmp.Chunk.Reader.Take.{header_bytes}
use librtmp.Chunk.Reader.Took.{Took, collected, take_chunk-Took}

at-IsByte : (xs : List ℕ) → All IsByte xs → (k : ℕ) → at xs k < 256
at-IsByte [] h k = omega arith
at-IsByte (x ∷ xs) h zero = h.0
at-IsByte (x ∷ xs) h (suc k) = at-IsByte xs h.1 k

be24_small : (xs : List ℕ) → All IsByte xs → (k : ℕ) → be24_at xs k < 2 ^ 24
be24_small xs h k = omega (arith, at-IsByte xs h k, at-IsByte xs h (k + 1), at-IsByte xs h (k + 2))

length_small :
    (xs : List ℕ) (fmt size n : ℕ) (o : Option ChunkStream)
    → All IsByte xs
    → ((s : ChunkStream) → o ≡ some s → StreamInv s)
    → effective_length xs fmt size o ≡ go n
    → n < 2 ^ 24
unfolding effective_length
length_small xs fmt size n none h v e = let k = be24_small xs h (size + 3) in ground arith
length_small xs fmt size n (some s) h v e =
    let k = be24_small xs h (size + 3) in let short = (v s refl).short in ground arith

-- The unread bytes are bytes, and the two states are well formed.
pub record InputInv (i : Input) : Type 0 where
  pub valid : IsValid i.buf
  pub reg_inv : RegInv i.reg
  pub bytes : All IsByte (peek i.buf)

abbrev pub awaited : ChunkMessage → ReadResult
awaited msg = record { rc = 0; msg = msg; payload = none }

pub peek_chunk_lem :
    (b : Buffer) (reg : ChunkRegistry) → peek_chunk b reg ≡ peek_bytes (peek b) (available b) reg
unfolding peek_chunk
peek_chunk_lem b reg = refl

-- The length of the chunk's message: formats 0 and 1 have it behind the three bytes of the timestamp,
-- and the others go by the stream's last header.
abbrev pub announced : Plan → Input → Option ℕ
announced p i =
    if leb p.fmt 1
    then some (be24_at (peek i.buf) (p.header_size + 3))
    else map_or none (λ s. some s.type0_msg_length) (get i.reg p.csid)

announced_lem :
    (xs : List ℕ) (fmt size n : ℕ) (o : Option ChunkStream)
    → effective_length xs fmt size o ≡ go n
    → (if leb fmt 1
        then some (be24_at xs (size + 3))
        else map_or none (λ s. some s.type0_msg_length) o)
      ≡ some n
unfolding effective_length
announced_lem xs fmt size n none e = ground arith
announced_lem xs fmt size n (some s) e = ground arith

-- The ways a call of `chunk_read` ends.
abbrev pub Outcome : ChunkMessage → Input → Input × Result ReadResult → Type 0
Outcome msg i (j, ok res) =
    ((j ≡ i) × (res ≡ awaited msg))
    ⊎ ((p : Plan) × (n : ℕ) × (peek_chunk i.buf i.reg ≡ go p)
        × (announced p i ≡ some n)
        × Took p n msg i j res)
Outcome msg i (j, err e) = j ≡ i

module _ (msg : ChunkMessage) (i : Input) (v : InputInv i) where
  after_peek-Outcome :
      (m : Peeked Plan) → peek_chunk i.buf i.reg ≡ m → Outcome msg i (after_peek msg m i)
  after_peek-Outcome wait e = inl (refl, refl)
  after_peek-Outcome (reject x) e = refl
  after_peek-Outcome (go p) e =
      let (r, f) =
        peek_bytes-Ready (peek i.buf) (available i.buf) i.reg p
          (sym (peek_chunk_lem i.buf i.reg) ∙ e) in
      let small =
        length_small (peek i.buf) p.fmt p.header_size r.eff_len (get i.reg p.csid) v.bytes
          (λ s k. get_inv i.reg v.reg_inv p.csid s k) r.length_known in
      let (j, res, k, t) = take_chunk-Took i p msg v.reg_inv v.valid r small in
      subst (Outcome msg i) (sym k) (
        inr (
          p,
          r.eff_len,
          e,
          announced_lem (peek i.buf) p.fmt p.header_size r.eff_len (get i.reg p.csid)
              r.length_known,
          t,
        ))

  -- `chunk_read` refuses or waits without touching anything, or it takes one chunk.
  pub chunk_read_cases : Outcome msg i (chunk_read msg i)
  unfolding chunk_read
  chunk_read_cases = after_peek-Outcome (peek_chunk i.buf i.reg) refl

  pub Took-InputInv :
      (j : Input) (p : Plan) (n : ℕ) (res : ReadResult) → Took p n msg i j res → InputInv j
  Took-InputInv j p n res t = record {
    valid = t.valid;
    reg_inv = t.inv;
    bytes = rw t.rest (All-drop IsByte (header_bytes p + p.to_read) (peek i.buf) v.bytes);
  }

  Outcome-InputInv : (r : Input × Result ReadResult) → Outcome msg i r → InputInv r.0
  Outcome-InputInv (j, ok res) (inl (same, waits)) = subst InputInv (sym same) v
  Outcome-InputInv (j, ok res) (inr (p, n, e, _, t)) = Took-InputInv j p n res t
  Outcome-InputInv (j, err e) same = subst InputInv (sym same) v

  -- Whatever bytes arrive, `chunk_read` leaves a well-formed buffer and registry: the sums count the
  -- streams, each stream buffers what it has counted, and the reassembly budget, the number of active
  -- streams and the number of streams stay within their limits.
  pub chunk_read-InputInv : InputInv (chunk_read msg i).0
  chunk_read-InputInv = Outcome-InputInv (chunk_read msg i) chunk_read_cases

  -- A chunk that `chunk_read` refuses is refused before anything is consumed or changed.
  pub chunk_read_err : (j : Input) (e : ErrorCode) → chunk_read msg i ≡ (j, err e) → j ≡ i
  chunk_read_err j e h = subst (Outcome msg i) h chunk_read_cases

  -- A call that succeeds has waited for more bytes and changed nothing, or it has taken one chunk
  -- exactly, its payload has been added to what its stream had collected, and the message is handed
  -- out if it has the length that the chunk's own header, or else the stream's last one, announces,
  -- and waits for more if it has less; the other streams are as they were.
  pub chunk_read_ok :
      (j : Input) (res : ReadResult) → chunk_read msg i ≡ (j, ok res) → Outcome msg i (j, ok res)
  chunk_read_ok j res h = subst (Outcome msg i) h chunk_read_cases

  -- A message that is handed out has as many bytes as its header has announced.
  pub chunk_read_payload :
      (j : Input) (res : ReadResult) (payload : List ℕ)
      → chunk_read msg i ≡ (j, ok res)
      → res.payload ≡ some payload
      → (length payload ≡ res.msg.msg_length) × (pending j.reg res.msg.csid ≡ [])
  chunk_read_payload j res payload h k = payload_of (chunk_read_ok j res h)
    where
      payload_of :
          Outcome msg i (j, ok res)
          → (length payload ≡ res.msg.msg_length) × (pending j.reg res.msg.csid ≡ [])
      payload_of (inl (same, waits)) = absurd (cc (ap (λ (r : ReadResult). r.payload) waits, k))
      payload_of (inr (p, n, e, _, t)) = elim t.progress [
        | inl (lt, waits, kept) ↦ absurd (cc (ap (λ (r : ReadResult). r.payload) waits, k))
        | inr (len, one, out, whole, id, size, none_left) ↦
            let all_of_it : payload ≡ collected p i = cc (out, k) in
            (rw all_of_it (len ∙ sym size), rw id none_left)
      ]
