-- ===== src/Chunk/RoundTrip/Finish.antt =====
-- src/chunk: a message of which the first chunk has been read, with whatever header, is read to its end.
use librtmp.Common.{
  ℕ, suc, ◌+◌, ◌-◌, min, ◌^◌, ◌≤◌, ◌<◌, ◌≡◌, ap, ◌∙◌, inl, inr, Bool, true, false, some, List, [],
  arith, leb, length, take, drop, leb→lt, length-take_le, length-drop, take-append-drop,
}
use librtmp.Common.Result.{ok}
use librtmp.Buffer.{available}
use librtmp.Chunk.State.{ChunkStream}
use librtmp.Chunk.State.Pending.{pending}
use librtmp.Chunk.Reader.{ChunkMessage, Input, ReadResult, chunk_read}
use librtmp.Chunk.Reader.Begin.{replaced}
use librtmp.Chunk.Reader.Peek.{Plan}
use librtmp.Chunk.Reader.Loop.{next_message, again}
use librtmp.Chunk.Reader.Took.{Took, Left, collected, before, behind_header}
use librtmp.Chunk.Writer.{continuation, rtmp_min_csid, rtmp_max_csid}
use librtmp.Chunk.Writer.Whole.{ext_of}
use librtmp.Chunk.RoundTrip.Next.{Delivered, Mid}
use librtmp.Chunk.RoundTrip.Rest.{
  again_done, again_more, owned_done, owned_more, read_rest, continued,
}
use librtmp.Chunk.RoundTrip.Step.{Stepped}

-- The stream behind the first chunk's header has the fields of the message.
pub record Fields (m : ChunkMessage) (size : ℕ) (s : ChunkStream) : Type 0 where
  pub timestamp : s.type0_timestamp ≡ m.timestamp
  pub goal : s.type0_msg_length ≡ m.msg_length
  pub kind : s.type0_msg_type_id ≡ m.msg_type_id
  pub stream_id : s.type0_msg_stream_id ≡ m.msg_stream_id
  pub extended : s.type0_ext_ts ≡ leb 0xFFFFFF m.timestamp
  pub header : s.has_message_header ≡ true
  pub chunk : s.chunk_size ≡ size

module _ (m : ChunkMessage) (size : ℕ) (q rest : List ℕ) (i : Input) (lo : rtmp_min_csid ≤ m.csid)
    (hi : m.csid ≤ rtmp_max_csid) (short : m.msg_length < 2 ^ 24) (one : 1 ≤ size)
    (whole : length q ≡ m.msg_length) (msg : ChunkMessage) (fmt hs k : ℕ) (ext : Bool) where
  abbrev pub opening : Plan
  opening = record { fmt = fmt; csid = m.csid; header_size = hs; ext_ts = ext; to_read = k }

  abbrev chdr : List ℕ
  chdr = continuation m.csid (ext_of m.timestamp)

  module _ (fields : Fields m size (behind_header opening i))
      (longest : m.msg_length ≤ i.reg.max_msg_length) (part : k ≤ m.msg_length)
      (room : i.reg.reassembly_bytes_in_use - replaced fmt (before opening i) + m.msg_length
        ≤ i.reg.max_reassembly_bytes) where
    first-Mid :
        (j : Input) (res : ReadResult) (t : ChunkStream)
        → Took opening m.msg_length msg i j res
        → collected opening i ≡ take size q
        → pending j.reg m.csid ≡ take size q
        → k ≡ size
        → leb (length q) size ≡ false
        → Left opening i j t
        → Mid m size j (take size q) t
    first-Mid j res t took all_of_it kept ek more left =
        let lt = leb→lt _ _ more in
        let cut = length-take_le size q (omega arith) in
        record {
          valid = took.valid;
          inv = took.inv;
          there = left.there;
          live = left.live;
          count = left.count ∙ ap length all_of_it;
          begun = omega arith;
          timestamp = left.timestamp ∙ fields.timestamp;
          goal = left.goal ∙ fields.goal;
          kind = left.kind ∙ fields.kind;
          stream_id = left.stream_id ∙ fields.stream_id;
          extended = left.extended ∙ fields.extended;
          header = left.header ∙ fields.header;
          chunk = left.size ∙ fields.chunk;
          held = kept;
          longest = rw took.limits.longest longest;
          room = omega (arith, left.sum, took.limits.bytes, room, whole, cut);
        }

    -- The rest of the chunks, if there are any, are read by the loop.
    pub read_on :
        (fuel : ℕ) (j : Input) (res : ReadResult)
        → length q ≤ fuel
        → k ≡ min (length q) size
        → chunk_read msg i ≡ (j, ok res)
        → Took opening m.msg_length msg i j res
        → Stepped fuel chdr size q rest [] m.msg_length opening i j res
        → available j.buf < available i.buf
        → (j' : Input) × (res' : ReadResult) × (next_message (suc fuel) msg i
            ≡ some (j', ok (res', q)))
          × Delivered m q rest i j' res'
    unfolding next_message
    read_on fuel j res enough ek run took out less = elim out [
      | inl (last, rc, payload, complete, id, announced, behind, handed) ↦
          let d : Delivered m q rest i j res = record {
            valid = took.valid;
            inv = took.inv;
            done = rc;
            whole = payload;
            complete = complete;
            csid = id;
            timestamp = handed.timestamp ∙ fields.timestamp;
            longness = announced;
            kind = handed.kind ∙ fields.kind;
            stream_id = handed.stream_id ∙ fields.stream_id;
            left =
                let (t', there, _, k) = handed.stays in
                (
                  t',
                  there,
                  record {
                    header = k.header ∙ fields.header;
                    timestamp = k.timestamp ∙ fields.timestamp;
                    longness = k.goal ∙ fields.goal;
                    kind = k.kind ∙ fields.kind;
                    stream_id = k.stream_id ∙ fields.stream_id;
                    idle = k.idle;
                  },
                );
            unread = behind;
            apart = took.apart;
          } in
          let (t, there, stays, _) = handed.stays in
          let (k, run', d') = owned_done m q rest msg i j res t run d there stays in
          (
            k,
            res,
            ap (again (available i.buf) (next_message fuel msg)) run'
                ∙ again_done (available i.buf) (next_message fuel msg) k res q rc complete,
            d',
          )
      | inr (more, rc, all_of_it, kept, behind, (t, left)) ↦
          let lt = leb→lt _ _ more in
          let mid = first-Mid j res t took all_of_it kept (omega arith) more left in
          let cut = length-take_le size q (omega arith) in
          let dropped = length-drop size q in
          let (k, final, rest_run, d) =
            read_rest m size rest lo hi short one msg fuel (drop size q) (take size q) j t mid
              (omega arith) (omega arith) (omega arith) behind in
          (
            k,
            final,
            ap (again (available i.buf) (next_message fuel msg)) (owned_more msg i j res run rc)
                ∙ again_more (available i.buf) (next_message fuel msg) j res [] rc less
                ∙ rest_run
                ∙ ap (λ ys. some (k, ok (final, ys))) (take-append-drop size q),
            continued j took.apart d (take-append-drop size q),
          )
    ]
