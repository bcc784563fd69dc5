-- ===== src/Chunk/RoundTrip/Next.antt =====
-- src/chunk: one chunk of a message that chunk/writer.rs has written is read by chunk/reader.rs.
use librtmp.Common.{
  ℕ, suc, ◌+◌, ◌-◌, min, ◌≤◌, ◌≡◌, refl, sym, ap, ◌∙◌, ◌⊎◌, inl, inr, true, false, some, List, ◌++◌,
  arith, leb, ◌==◌, length, take, drop, Bool-cases, length-append, length-take_le, take-append,
  drop-append, take_all, append_assoc, leb→le, leb→lt,
}
use librtmp.Buffer.{peek}
use librtmp.Buffer.Wf.{IsValid}
use librtmp.Chunk.State.{ChunkStream, get}
use librtmp.Chunk.State.Inv.{RegInv}
use librtmp.Chunk.State.Pending.{pending}
use librtmp.Chunk.Reader.{ChunkMessage, Input, ReadResult}
use librtmp.Chunk.Writer.Emit.{fragments}

module _ (fuel : ℕ) (chdr : List ℕ) (size : ℕ) (q rest : List ℕ) where
  -- The payload at the front of the chunks, and what stands behind it.
  pub front : take (min (length q) size) (fragments (suc fuel) chdr size q ++ rest) ≡ take size q
  unfolding fragments
  front = elim (Bool-cases (leb (length q) size)) [
    | inl last ↦
        let le = leb→le _ _ last in
        let e : min (length q) size ≡ length q = omega arith in
        rw (last, e) (take-append (length q) q rest refl ∙ sym (take_all size q le))
    | inr more ↦
        let lt = leb→lt _ _ more in
        let e : min (length q) size ≡ size = omega arith in
        rw (more, e)
          (ap (take size)
              (append_assoc (take size q) (chdr ++ fragments fuel chdr size (drop size q)) rest)
            ∙ take-append size (take size q) _ (sym (length-take_le size q (omega arith))))
  ]

  pub behind_last :
      leb (length q) size ≡ true
      → drop (min (length q) size) (fragments (suc fuel) chdr size q ++ rest) ≡ rest
  unfolding fragments
  behind_last last =
      let le = leb→le _ _ last in
      let e : min (length q) size ≡ length q = omega arith in
      rw (last, e) (drop-append (length q) q rest refl)

  pub behind_more :
      leb (length q) size ≡ false
      → drop (min (length q) size) (fragments (suc fuel) chdr size q ++ rest)
        ≡ chdr ++ (fragments fuel chdr size (drop size q) ++ rest)
  unfolding fragments
  behind_more more =
      let lt = leb→lt _ _ more in
      let e : min (length q) size ≡ size = omega arith in
      rw (more, e)
        (ap (drop size)
            (append_assoc (take size q) (chdr ++ fragments fuel chdr size (drop size q)) rest)
          ∙ drop-append size (take size q) _ (sym (length-take_le size q (omega arith)))
          ∙ append_assoc chdr (fragments fuel chdr size (drop size q)) rest)

  pub front_there : min (length q) size ≤ length (fragments (suc fuel) chdr size q)
  unfolding fragments
  front_there = elim (Bool-cases (leb (length q) size)) [
    | inl last ↦ rw last (omega arith)
    | inr more ↦ rw more (
        omega (
          arith,
          leb→lt _ _ more,
          length-append (take size q) (chdr ++ fragments fuel chdr size (drop size q)),
          length-take_le size q,
        ))
  ]

-- The stream has the header of the message, and no message in parts.
pub record Kept (m : ChunkMessage) (s : ChunkStream) : Type 0 where
  pub header : s.has_message_header ≡ true
  pub timestamp : s.type0_timestamp ≡ m.timestamp
  pub longness : s.type0_msg_length ≡ m.msg_length
  pub kind : s.type0_msg_type_id ≡ m.msg_type_id
  pub stream_id : s.type0_msg_stream_id ≡ m.msg_stream_id
  pub idle : s.reassembly_bytes_read ≡ 0

-- A message is handed out in full, and `rest` is left of the input.
pub record Delivered (m : ChunkMessage) (payload rest : List ℕ) (i j : Input) (res : ReadResult)
    : Type 0 where
  pub valid : IsValid j.buf
  pub inv : RegInv j.reg
  pub done : res.rc ≡ 1
  pub whole : res.payload ≡ some payload
  pub complete : res.msg.is_complete ≡ true
  pub csid : res.msg.csid ≡ m.csid
  pub timestamp : res.msg.timestamp ≡ m.timestamp
  pub longness : res.msg.msg_length ≡ m.msg_length
  pub kind : res.msg.msg_type_id ≡ m.msg_type_id
  pub stream_id : res.msg.msg_stream_id ≡ m.msg_stream_id
  pub unread : peek j.buf ≡ rest
  pub apart : (id : ℕ) → ((id == m.csid) ≡ true) ⊎ (get j.reg id ≡ get i.reg id)
  pub left : (s : ChunkStream) × (get j.reg m.csid ≡ some s) × Kept m s

-- The reader stands between two chunks of the message `m`, of which it has collected `got`.
pub record Mid (m : ChunkMessage) (size : ℕ) (i : Input) (got : List ℕ) (s : ChunkStream)
    : Type 0 where
  pub valid : IsValid i.buf
  pub inv : RegInv i.reg
  pub there : get i.reg m.csid ≡ some s
  pub live : s.reassembling ≡ true
  pub count : s.reassembly_bytes_read ≡ length got
  pub begun : 1 ≤ length got
  pub timestamp : s.type0_timestamp ≡ m.timestamp
  pub goal : s.type0_msg_length ≡ m.msg_length
  pub kind : s.type0_msg_type_id ≡ m.msg_type_id
  pub stream_id : s.type0_msg_stream_id ≡ m.msg_stream_id
  pub extended : s.type0_ext_ts ≡ leb 0xFFFFFF m.timestamp
  pub header : s.has_message_header ≡ true
  pub chunk : s.chunk_size ≡ size
  pub held : pending i.reg m.csid ≡ got
  pub longest : m.msg_length ≤ i.reg.max_msg_length
  pub room :
      i.reg.reassembly_bytes_in_use + (m.msg_length - length got) ≤ i.reg.max_reassembly_bytes
