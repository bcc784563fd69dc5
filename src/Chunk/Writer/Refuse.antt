-- ===== src/Chunk/Writer/Refuse.antt =====
-- src/chunk/writer.rs: what the writer refuses, before it touches the buffer.
use librtmp.Common.{
  ℕ, ◌≤◌, ◌<◌, ◌≡◌, refl, ◌⊎◌, inl, inr, List, arith, ltb, ◌==◌, length, Bool-cases,
}
use librtmp.Common.Result.{err, ErrorCode}
use librtmp.Buffer.{Buffer}
use librtmp.Chunk.State.{rtmp_wire_max_msg_length}
use librtmp.Chunk.Reader.{ChunkMessage}
use librtmp.Chunk.Writer.{chunk_write, chunk_write_sized, rtmp_max_csid, rtmp_min_csid}

-- A message with a chunk-stream id that no basic header can carry, a header format other than 0, a
-- length that its field cannot hold, or a payload that is not as long as announced is refused with
-- Chunk or Internal, and the buffer is as it was.
pub chunk_write_refuses :
    (msg : ChunkMessage) (payload : List ℕ) (n size : ℕ) (b : Buffer)
    → ((msg.csid < rtmp_min_csid) ⊎ (rtmp_max_csid < msg.csid))
      ⊎ ((1 ≤ msg.fmt)
          ⊎ ((rtmp_wire_max_msg_length < msg.msg_length)
              ⊎ ((n < msg.msg_length) ⊎ ((msg.msg_length < n) ⊎ (length payload < n)))))
    → (chunk_write msg payload n size b ≡ (b, err ErrorCode.chunk))
      ⊎ (chunk_write msg payload n size b ≡ (b, err ErrorCode.internal))
unfolding chunk_write chunk_write_sized
chunk_write_refuses msg payload n size b h = elim (Bool-cases (ltb rtmp_max_csid msg.csid)) [
  | inl high ↦ inl (rw high refl)
  | inr e1 ↦ elim (Bool-cases (ltb msg.csid rtmp_min_csid)) [
    | inl low ↦ inl (rw (e1, low) refl)
    | inr e2 ↦ elim (Bool-cases (msg.fmt == 0)) [
      | inr e3 ↦ inr (rw (e1, e2, e3) refl)
      | inl e3 ↦ elim (Bool-cases (ltb rtmp_wire_max_msg_length msg.msg_length)) [
        | inl e4 ↦ inr (rw (e1, e2, e3, e4) refl)
        | inr e4 ↦ elim (Bool-cases (n == msg.msg_length)) [
          | inr e5 ↦ inr (rw (e1, e2, e3, e4, e5) refl)
          | inl e5 ↦ elim (Bool-cases (ltb (length payload) n)) [
            | inl e6 ↦ inr (rw (e1, e2, e3, e4, e5, e6) refl)
            | inr e6 ↦ absurd (ground arith)
          ]
        ]
      ]
    ]
  ]
]
