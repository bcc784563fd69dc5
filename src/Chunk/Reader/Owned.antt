-- ===== src/Chunk/Reader/Owned.antt =====
-- src/chunk/reader.rs: `chunk_read_owned` takes the payload out of the stream of its message.
use librtmp.Common.{
  ℕ, ◌<◌, ◌≡◌, refl, sym, ap, ◌∙◌, subst, ◌⊎◌, inl, inr, true, Option, some, none, List, [], arith,
  ◌==◌, length,
}
use librtmp.Common.Result.{Result, ok, err, and_then}
use librtmp.Buffer.{available, peek}
use librtmp.Chunk.State.{ChunkStream, get, find_slot, slot_stream, stream_at, modify_stream, map_or}
use librtmp.Chunk.State.Inv.{RegInv, find_slot-Slot, find_slot_lem, with_slot-RegInv, stream_inv}
use librtmp.Chunk.State.Pending.{pending, unless, get-with_slot, get-with_slot_apart}
use librtmp.Chunk.Reader.{
  ChunkMessage, Input, ReadResult, chunk_read, chunk_read_owned, owned_payload,
}
use librtmp.Chunk.Reader.Peek.{Plan, go, peek_chunk}
use librtmp.Chunk.Reader.Facts.{peek_bytes-Ready, peek_bytes-header}
use librtmp.Chunk.Reader.Took.{Took, Took-less, collected}
use librtmp.Chunk.Reader.Semantics.{
  InputInv, Outcome, awaited, chunk_read_cases, Took-InputInv, peek_chunk_lem,
}

abbrev pub drop_last : ChunkStream → ChunkStream
drop_last s = record s { last_payload = [] }

-- The registry behind the take: only the kept payload of the stream is gone.
pub record Taken (csid : ℕ) (s : ChunkStream) (j k : Input) : Type 0 where
  pub inv : RegInv k.reg
  pub buf : k.buf ≡ j.buf
  pub stays : get k.reg csid ≡ some (drop_last s)
  pub same_pending : pending k.reg csid ≡ pending j.reg csid
  pub apart : (id : ℕ) → ((id == csid) ≡ true) ⊎ (get k.reg id ≡ get j.reg id)

module _ (j : Input) (res : ReadResult) (s : ChunkStream) (v : RegInv j.reg) (one : res.rc ≡ 1)
    (whole : res.msg.is_complete ≡ true) (there : get j.reg res.msg.csid ≡ some s) where
  abbrev Takes : Type 0
  Takes =
      (k : Input) × (owned_payload res j ≡ (k, ok (res, s.last_payload))) × Taken res.msg.csid s j k

  at_slot : (o : Option ℕ) → find_slot j.reg res.msg.csid ≡ o → Takes
  unfolding get owned_payload
  at_slot none e = absurd (cc (sym (ap (slot_stream j.reg) e) ∙ there))
  at_slot (some idx) e =
      let (lt, id, used) = find_slot-Slot j.reg v res.msg.csid idx e in
      let index : j.reg.csid_index res.msg.csid ≡ some idx =
        sym (find_slot_lem j.reg v res.msg.csid) ∙ e in
      let same : some (stream_at j.reg idx) ≡ some s = sym (ap (slot_stream j.reg) e) ∙ there in
      let slot_s : stream_at j.reg idx ≡ s = cc same in
      let si = stream_inv j.reg v idx lt in
      let inv =
        with_slot-RegInv j.reg v idx lt drop_last j.reg.reassembly_bytes_in_use
          j.reg.reassembling_count (refl, refl)
          (record {
            valid = si.valid;
            growable = si.growable;
            buffered = si.buffered;
            part = si.part;
            short = si.short;
            roomy = si.roomy;
            idle = si.idle;
          })
          refl refl v.budget v.cap in
      let last : (stream_at j.reg idx).last_payload ≡ s.last_payload =
        ap (map_or [] (λ t. t.last_payload)) same in
      (
        record j { reg = modify_stream idx drop_last j.reg },
        rw (one, whole, e, last) refl,
        record {
          inv = inv;
          buf = refl;
          stays =
              get-with_slot j.reg v res.msg.csid idx index drop_last _ _ inv
              ∙ ap (λ t. some (drop_last t)) slot_s;
          same_pending =
              ap (map_or [] (λ t. peek t.reassembly_buf))
                (get-with_slot j.reg v res.msg.csid idx index drop_last _ _ inv)
              ∙ ap (λ o. map_or [] (λ t. peek t.reassembly_buf) (slot_stream j.reg o)) (sym e);
          apart =
              unless res.msg.csid (λ id ne.
                get-with_slot_apart j.reg v res.msg.csid idx index drop_last _ _ inv id ne);
        },
      )

  pub owned_payload-Taken : Takes
  owned_payload-Taken = at_slot (find_slot j.reg res.msg.csid) refl

-- How a call of `chunk_read_owned` ends: a refusal changes nothing, nor does a call that waits for more
-- bytes; else a chunk has been taken, and a message that it ends is returned in full.
abbrev pub OwnedOutcome : ChunkMessage → Input → Input × Result (ReadResult × List ℕ) → Type 0
OwnedOutcome msg i (j, ok (res, payload)) =
    ((j ≡ i) × (res ≡ awaited msg) × (payload ≡ []))
    ⊎ ((available j.buf < available i.buf)
        × InputInv j
        × ((res.rc ≡ 0)
            ⊎ ((res.rc ≡ 1)
                × (res.msg.is_complete ≡ true)
                × (length payload ≡ res.msg.msg_length)
                × (pending j.reg res.msg.csid ≡ []))))
OwnedOutcome msg i (j, err e) = j ≡ i

module _ (msg : ChunkMessage) (i : Input) (v : InputInv i) where
  taken-OwnedOutcome :
      (j : Input) (res : ReadResult) (p : Plan) (n : ℕ)
      → peek_chunk i.buf i.reg ≡ go p
      → Took p n msg i j res
      → OwnedOutcome msg i (owned_payload res j)
  unfolding owned_payload
  taken-OwnedOutcome j res p n e t =
      let ready =
        peek_bytes-Ready (peek i.buf) (available i.buf) i.reg p
          (sym (peek_chunk_lem i.buf i.reg) ∙ e) in
      let head =
        peek_bytes-header (peek i.buf) (available i.buf) i.reg p
          (sym (peek_chunk_lem i.buf i.reg) ∙ e) in
      let fits = ready.0.fits in
      let less = Took-less p n msg i j res t v.valid (omega arith) (omega arith) in
      let inv = Took-InputInv msg i v j p n res t in
      elim t.progress [
        | inl (lt, waits, kept) ↦ rw waits (inr (less, inv, inl refl))
        | inr (len, one, out, whole, id, size, none_left) ↦ elim t.detail [
          | inl (zero_rc, _) ↦ absurd (cc (zero_rc, one))
          | inr (_, handed) ↦
              let (s, there, kept, _) = handed.stays in
              let (k, run, taken) =
                owned_payload-Taken j res s t.inv one whole (ap (get j.reg) id ∙ there) in
              let all_of_it : s.last_payload ≡ collected p i = cc (out, kept) in
              subst (OwnedOutcome msg i) (sym run) (
                inr (
                  rw taken.buf less,
                  record {
                    valid = rw taken.buf inv.valid;
                    reg_inv = taken.inv;
                    bytes = rw taken.buf inv.bytes;
                  },
                  inr (
                    one,
                    whole,
                    ap length all_of_it ∙ len ∙ sym size,
                    taken.same_pending ∙ rw id none_left,
                  ),
                ))
        ]
      ]

  of_read :
      (r : Input × Result ReadResult)
      → Outcome msg i r
      → OwnedOutcome msg i (and_then r owned_payload)
  unfolding owned_payload
  of_read (j, ok res) (inl (same, waits)) = rw waits (inl (same, refl, refl))
  of_read (j, ok res) (inr (p, n, e, _, t)) = taken-OwnedOutcome j res p n e t
  of_read (j, err e) same = same

  pub chunk_read_owned_cases : OwnedOutcome msg i (chunk_read_owned msg i)
  unfolding chunk_read_owned
  chunk_read_owned_cases = of_read (chunk_read msg i) (chunk_read_cases msg i v)
