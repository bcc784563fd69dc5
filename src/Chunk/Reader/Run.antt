-- ===== src/Chunk/Reader/Run.antt =====
-- src/chunk/reader.rs: phases 2 and 3, step by step, on the slot of one stream.
use librtmp.Common.{
  ℕ, ◌+◌, ◌-◌, ◌^◌, ◌≤◌, ◌<◌, ◌≡◌, refl, sym, ap, ◌∙◌, inl, inr, Bool, true, false, some, none,
  List, [], arith, leb, length, if◌then◌else◌, Bool-cases, lt→leb, le→leb,
}
use librtmp.Common.Result.{ok}
use librtmp.Buffer.{Buffer, available, write, read, resize, take_out}
use librtmp.Chunk.State.{
  ChunkStream, ChunkRegistry, modify_stream, stream_at, set_stream_reassembling,
  release_stream_reassembly, release_reassembly_bytes, note_reassembly_growth, saturating_add,
}
use librtmp.Chunk.State.Slots.{modify-modify, modify_ext, modify_id, nth-modify_self, flag}
use librtmp.Chunk.State.Inv.{with_slot, set_stream_reassembling_lem}
use librtmp.Chunk.Reader.{
  ChunkMessage, ReadResult, restart, read_part, store, appended, finish, complete, delivered,
  message_of, chunk_part, wrapping_add,
}
use librtmp.Chunk.Reader.Peek.{Plan}
use librtmp.Chunk.Reader.Begin.{started, replaced}

-- The stream with a chunk's bytes added.
abbrev pub loaded : List ℕ → Buffer → ChunkStream → ChunkStream
loaded bytes c s = record s {
  reassembly_buf = c;
  chunk_read_scratch = bytes;
  reassembly_bytes_read = wrapping_add s.reassembly_bytes_read (length bytes);
}

abbrev pub waiting : ChunkMessage → ReadResult
waiting msg = record { rc = 0; msg = record msg { is_complete = false }; payload = none }

abbrev pub cleared : Bool → ChunkStream → ChunkStream
cleared b s = record s { chunk_read_scratch = []; reassembling = b }

module _ (reg : ChunkRegistry) (idx : ℕ) (h : idx < length reg.streams) where
  -- The registry with the stream `s` in the slot, and its two sums.
  abbrev pub put_slot : ChunkStream → ℕ → ℕ → ChunkRegistry
  put_slot s bytes count = with_slot reg idx (λ _. s) bytes count

  pub stream_at-put_slot :
      (s : ChunkStream) (bytes count : ℕ) → stream_at (put_slot s bytes count) idx ≡ s
  stream_at-put_slot s bytes count = nth-modify_self reg.streams idx (λ _. s) h

  pub modify-put_slot :
      (f : ChunkStream → ChunkStream) (s : ChunkStream) (bytes count : ℕ)
      → modify_stream idx f (put_slot s bytes count) ≡ put_slot (f s) bytes count
  modify-put_slot f s bytes count =
      ap (λ ss. record (put_slot s bytes count) { streams = ss })
        (modify-modify reg.streams idx (λ _. s) f)

  pub flag-put_slot :
      (b : Bool) (s : ChunkStream) (bytes count : ℕ)
      → set_stream_reassembling idx b (put_slot s bytes count)
        ≡ put_slot (record s { reassembling = b }) bytes (count + (if b then 1 else 0) - flag s)
  flag-put_slot b s bytes count = set_stream_reassembling_lem (put_slot s bytes count) idx b ∙ (λ i.
      record (put_slot s bytes count) {
        streams = modify-modify reg.streams idx (λ _. s) (λ t. record t { reassembling = b }) i;
        reassembling_count =
            count + (if b then 1 else 0) - flag (stream_at-put_slot s bytes count i);
      })

  pub restarted :
      (fmt : ℕ)
      → restart fmt idx reg
        ≡ put_slot
            (started fmt (stream_at reg idx))
            (reg.reassembly_bytes_in_use - replaced fmt (stream_at reg idx))
            reg.reassembling_count
  unfolding restart release_stream_reassembly release_reassembly_bytes
  restarted fmt = elim (Bool-cases (leb fmt 1)) [
    | inl first ↦ rw first (
        ap
          (λ ss. record reg {
            streams = ss;
            reassembly_bytes_in_use =
                reg.reassembly_bytes_in_use - available (stream_at reg idx).reassembly_buf;
          })
          (modify_ext reg.streams idx _ _ refl))
    | inr next ↦ rw next (λ i. record reg {
      streams =
          (sym (modify_id reg.streams idx)
              ∙ modify_ext reg.streams idx (λ s. s) (λ _. stream_at reg idx) refl)
            i;
      reassembly_bytes_in_use = sub_zero reg.reassembly_bytes_in_use i;
    })
  ]
    where
      sub_zero : (n : ℕ) → n ≡ n - 0
      sub_zero n = omega arith

  store_run :
      (b c : Buffer) (s : ChunkStream) (bytes : List ℕ) (n total count : ℕ)
      → write bytes s.reassembly_buf ≡ (c, ok n)
      → store idx bytes (record { buf = b; reg = put_slot s total count })
        ≡ (record { buf = b; reg = put_slot (loaded bytes c s) total count }, ok tt)
  unfolding store
  store_run b c s bytes n total count e =
      rw (stream_at-put_slot s total count, e)
        (ap (λ r. (record { buf = b; reg = r }, ok tt))
          (modify-put_slot (appended bytes (c, ok n)) s total count))

  -- The payload part is read off the buffer and added to the stream.
  pub read_part_run :
      (b b' c : Buffer) (s : ChunkStream) (bytes : List ℕ) (n total count : ℕ)
      → read (chunk_part s) b ≡ (b', ok bytes)
      → write bytes s.reassembly_buf ≡ (c, ok n)
      → total + chunk_part s < 2 ^ 64
      → read_part idx (record { buf = b; reg = put_slot s total count }) ≡ (
        record { buf = b'; reg = put_slot (loaded bytes c s) (total + chunk_part s) count },
        ok tt,
      )
  unfolding read_part note_reassembly_growth chunk_part
  read_part_run b b' c s bytes n total count e k lt = rw (stream_at-put_slot s total count) (
      rw
        (modify-put_slot
          (λ t. record t { chunk_read_scratch = resize t.chunk_read_scratch (chunk_part s) }) s
          total count)
        (rw
          (
            e,
            store_run b' c
                (record s { chunk_read_scratch = resize s.chunk_read_scratch (chunk_part s) }) bytes
                n total count k,
          )
          (ap (λ t. (record { buf = b'; reg = put_slot (loaded bytes c s) t count }, ok tt))
            (no_wrap total (chunk_part s) lt))))
    where
      no_wrap : (a d : ℕ) → a + d < 2 ^ 64 → saturating_add a d ≡ a + d
      no_wrap a d lt = omega arith

  marked :
      (d : Bool) (s : ChunkStream) (total count : ℕ)
      → set_stream_reassembling idx d
          (modify_stream idx (λ t. record t { chunk_read_scratch = [] }) (put_slot s total count))
        ≡ put_slot (cleared d s) total (count + (if d then 1 else 0) - flag s)
  marked d s total count =
      ap (set_stream_reassembling idx d)
        (modify-put_slot (λ t. record t { chunk_read_scratch = [] }) s total count)
      ∙ flag-put_slot d (record s { chunk_read_scratch = [] }) total count

  -- The end of a chunk that leaves its message unfinished.
  pub finish_partial :
      (b : Buffer) (p : Plan) (msg : ChunkMessage) (s : ChunkStream) (total count : ℕ)
      → s.reassembly_bytes_read < s.type0_msg_length
      → finish p msg idx (record { buf = b; reg = put_slot s total count }) ≡ (
        record { buf = b; reg = put_slot (cleared true s) total (count + 1 - flag s) },
        ok (waiting msg),
      )
  unfolding finish
  finish_partial b p msg s total count lt =
      rw (stream_at-put_slot s total count, lt→leb s.type0_msg_length s.reassembly_bytes_read lt)
        (ap (λ r. (record { buf = b; reg = r }, ok (waiting msg))) (marked true s total count))

  complete_run :
      (b : Buffer) (p : Plan) (s : ChunkStream) (total count : ℕ)
      → complete p idx (record { buf = b; reg = put_slot s total count }) ≡ (
        record { buf = b; reg = put_slot (delivered s) (total - available s.reassembly_buf) count },
        ok (record { rc = 1; msg = message_of p s; payload = some (take_out s.reassembly_buf).1 }),
      )
  unfolding complete release_reassembly_bytes
  complete_run b p s total count = rw (stream_at-put_slot s total count) (
      ap
        (λ r. (
          record { buf = b; reg = release_reassembly_bytes (available s.reassembly_buf) r },
          ok (record {
            rc = 1;
            msg = message_of p s;
            payload = some (take_out s.reassembly_buf).1;
          }),
        ))
        (modify-put_slot delivered s total count))

  -- The end of a chunk that completes its message.
  pub finish_complete :
      (b : Buffer) (p : Plan) (msg : ChunkMessage) (s : ChunkStream) (total count : ℕ)
      → s.type0_msg_length ≤ s.reassembly_bytes_read
      → finish p msg idx (record { buf = b; reg = put_slot s total count }) ≡ (
        record {
          buf = b;
          reg =
              put_slot
                (delivered (cleared false s))
                (total - available s.reassembly_buf)
                (count + 0 - flag s);
        },
        ok (record { rc = 1; msg = message_of p s; payload = some (take_out s.reassembly_buf).1 }),
      )
  unfolding finish
  finish_complete b p msg s total count le =
      rw (stream_at-put_slot s total count, le→leb s.type0_msg_length s.reassembly_bytes_read le)
        (ap (λ r. complete p idx (record { buf = b; reg = r })) (marked false s total count)
          ∙ complete_run b p (cleared false s) total (count + 0 - flag s))
