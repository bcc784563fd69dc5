-- ===== src/Chunk/RoundTrip/Whole.antt =====
-- src/chunk: a message that chunk/writer.rs has written is read by chunk/reader.rs.
use librtmp.Common.{
  ℕ, zero, suc, ◌+◌, ◌-◌, ◌^◌, ◌≤◌, min, leb, ◌<◌, ◌≡◌, refl, sym, ap, ◌∙◌, true, some, List, [],
  ◌∷◌, ◌++◌, arith, length, take, drop, le→leb, length-take_le, length-drop, drop-append,
  append_assoc,
}
use librtmp.Common.Result.{Result, ok}
use librtmp.Buffer.{Buffer, peek, buffer_max_size}
use librtmp.Buffer.Wf.{IsValid}
use librtmp.Chunk.State.Inv.{RegInv}
use librtmp.Chunk.Reader.{ChunkMessage, Input, ReadResult}
use librtmp.Chunk.Reader.Loop.{next_message}
use librtmp.Chunk.Writer.{
  basic_header, first_header, continuation, rtmp_min_csid, rtmp_max_csid, chunk_write, or_default,
}
use librtmp.Chunk.Writer.Emit.{fragments}
use librtmp.Chunk.Writer.Wire.{body_wire, or_default_pos}
use librtmp.Chunk.Writer.Whole.{
  Writable, ext_of, wire_len, message_wire, length-message_wire, Emits-chunk_write,
}
use librtmp.Chunk.RoundTrip.Next.{Delivered}
use librtmp.Chunk.RoundTrip.Start.{Accepts, first_step, first_shrinks, first-Fields, first_room}
use librtmp.Chunk.RoundTrip.Finish.{read_on}

-- The chunks of a payload on one more round of fuel, which is not used.
fragments-suc :
    (fuel : ℕ) (chdr : List ℕ) (size : ℕ) (q : List ℕ)
    → length q ≤ fuel
    → 1 ≤ size
    → fragments (suc fuel) chdr size q ≡ fragments fuel chdr size q
unfolding fragments
fragments-suc zero chdr size [] h k = rw (le→leb 0 size (omega arith)) refl
fragments-suc zero chdr size (x ∷ xs) h k = absurd (omega arith)
fragments-suc (suc fuel) chdr size q h k =
    rw (fragments-suc fuel chdr size (drop size q) (omega (arith, length-drop size q)) k) refl

pub fragments_more :
    (k : ℕ) (chdr : List ℕ) (size : ℕ) (q : List ℕ)
    → 1 ≤ size
    → fragments (k + length q) chdr size q ≡ fragments (length q) chdr size q
fragments_more zero chdr size q h = ap (λ n. fragments n chdr size q) (omega arith)
fragments_more (suc k) chdr size q h =
    ap (λ n. fragments n chdr size q) (omega arith)
    ∙ fragments-suc (k + length q) chdr size q (omega arith) h
    ∙ fragments_more k chdr size q h

module _ (m : ChunkMessage) (size : ℕ) (q rest : List ℕ) (i : Input) (v : RegInv i.reg)
    (w : IsValid i.buf) (lo : rtmp_min_csid ≤ m.csid) (hi : m.csid ≤ rtmp_max_csid)
    (short : m.msg_length < 2 ^ 24) (ht : m.timestamp < 2 ^ 32) (hsid : m.msg_stream_id < 2 ^ 32)
    (one : 1 ≤ size) (whole : length q ≡ m.msg_length)
    (acc : Accepts i.reg m.csid m.msg_length size) (msg : ChunkMessage) where
  abbrev chdr : List ℕ
  chdr = continuation m.csid (ext_of m.timestamp)

  read_at :
      (fuel : ℕ)
      → length q ≤ fuel
      → peek i.buf
        ≡ first_header m.csid 0 m.timestamp m.msg_length m.msg_type_id m.msg_stream_id
          ++ (fragments (suc fuel) chdr size q ++ rest)
      → (j : Input) × (res : ReadResult) × (next_message (suc fuel) msg i ≡ some (j, ok (res, q)))
        × Delivered m q rest i j res
  read_at fuel enough ahead =
      let (j, res, run, took, out) =
        first_step m size q rest i v w lo hi short ht hsid one whole acc fuel chdr ahead msg in
      read_on m size q rest i lo hi short one whole msg 0 (length (basic_header m.csid 0))
        (min (length q) size) (leb 0xFFFFFF m.timestamp)
        (first-Fields m size q rest i v w lo hi short ht hsid one whole acc fuel chdr ahead)
        acc.longest (omega (arith, whole))
        (first_room m size q rest i v w lo hi short ht hsid one whole acc fuel chdr ahead) fuel j
        res enough refl run took out
        (first_shrinks m size q rest i v w lo hi short ht hsid one whole acc fuel chdr ahead msg j
          res took)

  -- The wire bytes of a message are read by a reader that expects chunks of the writer's size.
  pub read_wire :
      (fuel : ℕ)
      → length q < fuel
      → peek i.buf
        ≡ first_header m.csid 0 m.timestamp m.msg_length m.msg_type_id m.msg_stream_id
          ++ (body_wire m.csid (ext_of m.timestamp) size q ++ rest)
      → (j : Input) × (res : ReadResult) × (next_message fuel msg i ≡ some (j, ok (res, q)))
        × Delivered m q rest i j res
  read_wire zero enough ahead = absurd (omega arith)
  read_wire (suc fuel) enough ahead =
      let e : suc fuel ≡ suc fuel - length q + length q = omega arith in
      read_at fuel (omega arith) (
        ahead
        ∙ ap
            (λ ys.
              first_header m.csid 0 m.timestamp m.msg_length m.msg_type_id m.msg_stream_id
              ++ (ys ++ rest))
            (sym (
              ap (λ n. fragments n chdr size q) e
              ∙ fragments_more (suc fuel - length q) chdr size q one)))

-- What `chunk_write` has added to a buffer, followed by any bytes, is read by a connection that has
-- room for the message and the same chunk size: its loop takes at most a round for each byte and one
-- more, and hands out the payload, whole, with the message's id, timestamp, length, type and stream;
-- the bytes behind the message are left, its stream keeps the header and has no message in parts, and
-- every other chunk stream is as it was. The chunk-stream id and the length are ones that can be
-- written, and timestamp and stream id are 32-bit numbers.
pub chunk_write-next_message :
    (m : ChunkMessage) (payload : List ℕ) (n size : ℕ) (b c : Buffer) (rest : List ℕ) (i : Input)
    (msg : ChunkMessage) (fuel : ℕ)
    → Writable m payload n
    → m.timestamp < 2 ^ 32
    → m.msg_stream_id < 2 ^ 32
    → IsValid b
    → b.owned ≡ true
    → length (peek b) + wire_len m n size ≤ buffer_max_size
    → chunk_write m payload n size b ≡ (c, ok tt)
    → peek i.buf ≡ drop (length (peek b)) (peek c) ++ rest
    → RegInv i.reg
    → IsValid i.buf
    → Accepts i.reg m.csid m.msg_length (or_default size)
    → n < fuel
    → (j : Input) × (res : ReadResult) × (next_message fuel msg i
        ≡ some (j, ok (res, take n payload)))
      × Delivered m (take n payload) rest i j res
chunk_write-next_message m payload n size b c rest i msg fuel h ht hsid v o room wrote ahead vr vi
      acc enough =
    let body : List ℕ = take n payload in
    let len : length body ≡ n = length-take_le n payload h.there in
    let (d, run, w, seen, own) =
      Emits-chunk_write m payload n size h b v o
        (omega (arith, length-message_wire m body size, ap (λ k. wire_len m k size) len)) in
    let same : c ≡ d = ap (λ (r : Buffer × Result (Unit {0})). r.0) (sym wrote ∙ run) in
    let short : m.msg_length < 2 ^ 24 = omega (arith, h.short) in
    let wire : drop (length (peek b)) (peek c) ≡ message_wire m body size =
      ap (λ (t : Buffer). drop (length (peek b)) (peek t)) same
      ∙ ap (drop (length (peek b))) seen
      ∙ drop-append (length (peek b)) (peek b) (message_wire m body size) refl in
    read_wire m (or_default size) body rest i vr vi h.low h.high short ht hsid (or_default_pos size)
      (omega (arith, len, h.whole)) acc msg fuel (omega (arith, len))
      (ahead
        ∙ ap (λ ys. ys ++ rest) wire
        ∙ append_assoc
            (first_header m.csid 0 m.timestamp m.msg_length m.msg_type_id m.msg_stream_id)
            (body_wire m.csid (ext_of m.timestamp) (or_default size) body) rest)
