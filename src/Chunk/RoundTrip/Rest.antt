-- ===== src/Chunk/RoundTrip/Rest.antt =====
-- src/session/conn.rs: the loop of `read_messages` reads a message of chunk/writer.rs to its end.
use librtmp.Common.{
  ℕ, zero, suc, ◌+◌, ◌^◌, ◌≤◌, ◌<◌, ◌≡◌, subst, refl, sym, Option, [], lt→leb, ap, ◌∙◌, ◌⊎◌, inl,
  inr, true, some, List, ◌++◌, arith, ◌==◌, length, take, drop, length-append, length-take_le,
  length-drop, leb→lt, append_assoc, take-append-drop,
}
use librtmp.Common.Result.{Result, ok, and_then}
use librtmp.Buffer.{available, peek}
use librtmp.Chunk.State.{ChunkStream, get}
use librtmp.Chunk.Reader.{
  ChunkMessage, Input, ReadResult, chunk_read, chunk_read_owned, owned_payload,
}
use librtmp.Chunk.Reader.Peek.{Plan}
use librtmp.Chunk.Reader.Loop.{Returned, next_message, again}
use librtmp.Chunk.Reader.Owned.{owned_payload-Taken}
use librtmp.Chunk.Reader.Took.{Took, Handed}
use librtmp.Chunk.Writer.{continuation, rtmp_min_csid, rtmp_max_csid}
use librtmp.Chunk.Writer.Whole.{ext_of}
use librtmp.Chunk.Writer.Emit.{fragments}
use librtmp.Chunk.RoundTrip.Next.{Kept, Delivered, Mid}
use librtmp.Chunk.RoundTrip.Continue.{continue_step, next_plan, same_header, next-Mid, shrinks}

-- A result that is an end of a message ends the loop.
pub again_done :
    (before : ℕ) (next : Input → Option Returned) (j : Input) (res : ReadResult) (payload : List ℕ)
    → res.rc ≡ 1
    → res.msg.is_complete ≡ true
    → again before next (j, ok (res, payload)) ≡ some (j, ok (res, payload))
again_done before next j res payload e k = rw (e, k) refl

pub again_more :
    (before : ℕ) (next : Input → Option Returned) (j : Input) (res : ReadResult) (payload : List ℕ)
    → res.rc ≡ 0
    → available j.buf < before
    → again before next (j, ok (res, payload)) ≡ next j
again_more before next j res payload e k = rw (e, lt→leb before (available j.buf) k) refl

-- A part of a message is returned without a payload.
pub owned_more :
    (msg : ChunkMessage) (i j : Input) (res : ReadResult)
    → chunk_read msg i ≡ (j, ok res)
    → res.rc ≡ 0
    → chunk_read_owned msg i ≡ (j, ok (res, []))
unfolding chunk_read_owned owned_payload
owned_more msg i j res run e =
    ap (λ (r : Input × Result ReadResult). and_then r owned_payload) run ∙ rw e refl

-- The end of a message is returned with its payload, and a state without it.
pub owned_done :
    (m : ChunkMessage) (payload rest : List ℕ) (msg : ChunkMessage) (i j : Input) (res : ReadResult)
    (s : ChunkStream)
    → chunk_read msg i ≡ (j, ok res)
    → Delivered m payload rest i j res
    → get j.reg m.csid ≡ some s
    → res.payload ≡ some s.last_payload
    → (k : Input) × (chunk_read_owned msg i ≡ (k, ok (res, payload)))
      × Delivered m payload rest i k res
unfolding chunk_read_owned
owned_done m payload rest msg i j res s run d there kept =
    let (k, took, taken) =
      owned_payload-Taken j res s d.inv d.done d.complete (ap (get j.reg) d.csid ∙ there) in
    let same : s.last_payload ≡ payload = cc (kept, d.whole) in
    let (s', there', header) = d.left in
    let one_stream : s' ≡ s = cc (sym there' ∙ there) in
    let known : Kept m s = subst (Kept m) one_stream header in
    (
      k,
      ap (λ (r : Input × Result ReadResult). and_then r owned_payload) run
          ∙ took
          ∙ ap (λ xs. (k, ok (res, xs))) same,
      record {
        valid = rw taken.buf d.valid;
        inv = taken.inv;
        done = d.done;
        whole = d.whole;
        complete = d.complete;
        csid = d.csid;
        timestamp = d.timestamp;
        longness = d.longness;
        kind = d.kind;
        stream_id = d.stream_id;
        left = (
          _,
          ap (get k.reg) (sym d.csid) ∙ taken.stays,
          record {
            header = known.header;
            timestamp = known.timestamp;
            longness = known.longness;
            kind = known.kind;
            stream_id = known.stream_id;
            idle = known.idle;
          },
        );
        unread = rw taken.buf d.unread;
        apart = λ id. elim (taken.apart id) [
          | inl here ↦ inl (ap (λ c. id == c) (sym d.csid) ∙ here)
          | inr left ↦ elim (d.apart id) [ inl here ↦ inl here | inr before ↦ inr (left ∙ before) ]
        ];
      },
    )

rejoined : (got : List ℕ) (size : ℕ) (q : List ℕ) → (got ++ take size q) ++ drop size q ≡ got ++ q
rejoined got size q =
    append_assoc got (take size q) (drop size q) ∙ ap (λ ys. got ++ ys) (take-append-drop size q)

-- The end of a message seen from a state further back.
pub continued :
    {m : ChunkMessage} {rest : List ℕ} {i k : Input} {final : ReadResult} {a b : List ℕ} (j : Input)
    → ((id : ℕ) → ((id == m.csid) ≡ true) ⊎ (get j.reg id ≡ get i.reg id))
    → Delivered m a rest j k final
    → a ≡ b
    → Delivered m b rest i k final
continued j apart d e = record {
  valid = d.valid;
  inv = d.inv;
  done = d.done;
  whole = d.whole ∙ ap some e;
  complete = d.complete;
  csid = d.csid;
  timestamp = d.timestamp;
  longness = d.longness;
  kind = d.kind;
  stream_id = d.stream_id;
  unread = d.unread;
  left = d.left;
  apart = λ id. elim (apart id) [
    | inl same ↦ inl same
    | inr kept ↦ elim (d.apart id) [ inl same ↦ inl same | inr later ↦ inr (later ∙ kept) ]
  ];
}

module _ (m : ChunkMessage) (size : ℕ) (rest : List ℕ) (lo : rtmp_min_csid ≤ m.csid)
    (hi : m.csid ≤ rtmp_max_csid) (short : m.msg_length < 2 ^ 24) (one : 1 ≤ size)
    (msg : ChunkMessage) where
  abbrev chdr : List ℕ
  chdr = continuation m.csid (ext_of m.timestamp)

  -- What the message looks like when it is read to its end from a state `i`.
  abbrev pub Reads : ℕ → List ℕ → Input → Type 0
  Reads fuel payload i =
      (j : Input) × (res : ReadResult) × (next_message fuel msg i ≡ some (j, ok (res, payload)))
      × Delivered m payload rest i j res

  module _ (fuel : ℕ) (q got : List ℕ) (i : Input) (s : ChunkStream) (mid : Mid m size i got s)
      (some_left : 1 ≤ length q) (total : length got + length q ≡ m.msg_length)
      (ahead : peek i.buf ≡ chdr ++ (fragments (suc fuel) chdr size q ++ rest)) where
    abbrev p : Plan
    p = next_plan m size fuel q rest got i s mid lo hi short some_left one total ahead

    -- The last chunk.
    pub last_one :
        (j : Input) (res : ReadResult)
        → Took p m.msg_length msg i j res
        → res.rc ≡ 1
        → res.payload ≡ some (got ++ q)
        → res.msg.is_complete ≡ true
        → res.msg.csid ≡ p.csid
        → res.msg.msg_length ≡ m.msg_length
        → peek j.buf ≡ rest
        → Handed p i j res
        → Delivered m (got ++ q) rest i j res
    last_one j res t rc out whole id announced behind handed =
        let same =
          same_header m size fuel q rest got i s mid lo hi short some_left one total ahead in
        record {
          valid = t.valid;
          inv = t.inv;
          done = rc;
          whole = out;
          complete = whole;
          csid = id;
          timestamp =
              handed.timestamp ∙ ap (λ (u : ChunkStream). u.type0_timestamp) same ∙ mid.timestamp;
          longness = announced;
          kind = handed.kind ∙ ap (λ (u : ChunkStream). u.type0_msg_type_id) same ∙ mid.kind;
          stream_id =
              handed.stream_id
              ∙ ap (λ (u : ChunkStream). u.type0_msg_stream_id) same
              ∙ mid.stream_id;
          left =
              let (t', there, _, k) = handed.stays in
              (
                t',
                there,
                record {
                  header =
                      k.header ∙ ap (λ (u : ChunkStream). u.has_message_header) same ∙ mid.header;
                  timestamp =
                      k.timestamp
                      ∙ ap (λ (u : ChunkStream). u.type0_timestamp) same
                      ∙ mid.timestamp;
                  longness = k.goal ∙ ap (λ (u : ChunkStream). u.type0_msg_length) same ∙ mid.goal;
                  kind = k.kind ∙ ap (λ (u : ChunkStream). u.type0_msg_type_id) same ∙ mid.kind;
                  stream_id =
                      k.stream_id
                      ∙ ap (λ (u : ChunkStream). u.type0_msg_stream_id) same
                      ∙ mid.stream_id;
                  idle = k.idle;
                },
              );
          unread = behind;
          apart = t.apart;
        }

  -- The loop reads the chunks that are left, in at most as many rounds as bytes.
  pub read_rest :
      (fuel : ℕ) (q got : List ℕ) (i : Input) (s : ChunkStream)
      → Mid m size i got s
      → 1 ≤ length q
      → length q ≤ fuel
      → length got + length q ≡ m.msg_length
      → peek i.buf ≡ chdr ++ (fragments fuel chdr size q ++ rest)
      → Reads fuel (got ++ q) i
  unfolding next_message
  read_rest zero q got i s mid some_left le total ahead = absurd (omega arith)
  read_rest (suc fuel) q got i s mid some_left le total ahead =
      let (j, res, run, took, out) =
        continue_step m size fuel q rest got i s mid lo hi short some_left one total ahead msg in
      elim out [
        | inl (last, rc, payload, whole, id, announced, behind, handed) ↦
            let d =
              last_one fuel q got i s mid some_left total ahead j res took rc payload whole id
                announced behind handed in
            let (t, there, stays, _) = handed.stays in
            let (k, run', d') = owned_done m (got ++ q) rest msg i j res t run d there stays in
            (
              k,
              res,
              ap (again (available i.buf) (next_message fuel msg)) run'
                  ∙ again_done (available i.buf) (next_message fuel msg) k res (got ++ q) rc whole,
              d',
            )
        | inr (more, rc, all_of_it, kept, behind, (t, left)) ↦
            let lt = leb→lt _ _ more in
            let next =
              next-Mid m size fuel q rest got i s mid lo hi short some_left one total ahead j res
                msg t took all_of_it kept more left in
            let cut = length-take_le size q (omega arith) in
            let dropped = length-drop size q in
            let (k, final, rest_run, d) =
              read_rest fuel (drop size q) (got ++ take size q) j t next (omega arith) (omega arith)
                (omega (arith, length-append got (take size q))) behind in
            (
              k,
              final,
              ap (again (available i.buf) (next_message fuel msg)) (owned_more msg i j res run rc)
                  ∙ again_more (available i.buf) (next_message fuel msg) j res [] rc (
                      shrinks m size fuel q rest got i s mid lo hi short some_left one total ahead
                        msg j res took)
                  ∙ rest_run
                  ∙ ap (λ ys. some (k, ok (final, ys))) (rejoined got size q),
              continued j took.apart d (rejoined got size q),
            )
      ]
