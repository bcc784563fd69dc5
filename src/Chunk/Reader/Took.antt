-- ===== src/Chunk/Reader/Took.antt =====
-- src/chunk/reader.rs: what a chunk that is read adds to its message, and to nothing else.
use librtmp.Common.{
  ◌≤◌, length-drop, ℕ, ◌+◌, ◌-◌, sym, ◌^◌, ◌<◌, ◌≡◌, refl, ap, ◌∙◌, ◌⊎◌, inl, inr, true, Option,
  some, none, List, [], ◌++◌, arith, ltb, leb, ◌==◌, length, take, drop, if◌then◌else◌, Bool-cases,
  ltb→lt, ltb→le,
}
use librtmp.Common.Result.{ok}
use librtmp.Buffer.{Buffer, available, peek, take_out}
use librtmp.Buffer
use librtmp.Buffer.Wf.{IsValid, length-peek}
use librtmp.Buffer.Queue.{take_out_lem, reset_lem}
use librtmp.Chunk.State.{
  ChunkStream, ChunkRegistry, get, map_or, fresh_stream, stream_at, can_get_or_create,
  get_or_create_index,
}
use librtmp.Chunk.State.Inv.{RegInv}
use librtmp.Chunk.State.Lookup.{Opened, get_or_create_index_cases}
use librtmp.Chunk.State.Pending.{pending, unless, get-with_slot, get-with_slot_apart, fresh_pending}
use librtmp.Chunk.Reader.{
  ChunkMessage, Header, Input, ReadResult, apply_header, take_chunk, message_of,
}
use librtmp.Chunk.Reader.Peek.{Plan}
use librtmp.Chunk.Reader.Facts.{Ready}
use librtmp.Chunk.Reader.Begin.{replaced, headed, opened_inv}
use librtmp.Chunk.Reader.Consume.{header_in}
use librtmp.Chunk.Reader.Run.{waiting, cleared, finish_partial, finish_complete}
use librtmp.Chunk.Reader.Take.{
  header_bytes, part, target, target-Begun, target_fits, loaded_run, open_run,
}
use librtmp.Chunk.Reader.Outcome.{
  full, full_read, partial_reg, partial-RegInv, complete_reg, complete-RegInv, full_available,
}

-- What the stream has collected before the chunk: formats 0 and 1 drop it.
abbrev pub prior : ℕ → ChunkRegistry → ℕ → List ℕ
prior fmt reg csid = if leb fmt 1 then [] else pending reg csid

-- What the stream has collected with the chunk.
abbrev pub collected : Plan → Input → List ℕ
collected p i = prior p.fmt i.reg p.csid ++ take p.to_read (drop (header_bytes p) (peek i.buf))

-- The message goes on, or it is handed out in full.
abbrev pub Progress : Plan → ℕ → ChunkMessage → Input → Input → ReadResult → Type 0
Progress p eff_len msg i j res =
    ((length (collected p i) < eff_len)
      × (res ≡ waiting msg)
      × (pending j.reg p.csid ≡ collected p i))
    ⊎ ((length (collected p i) ≡ eff_len)
        × (res.rc ≡ 1)
        × (res.payload ≡ some (collected p i))
        × (res.msg.is_complete ≡ true)
        × (res.msg.csid ≡ p.csid)
        × (res.msg.msg_length ≡ eff_len)
        × (pending j.reg p.csid ≡ []))

-- The stream of the chunk's id before the chunk, and behind its header.
abbrev pub before : Plan → Input → ChunkStream
before p i = map_or (fresh_stream p.csid i.reg.default_size) (λ s. s) (get i.reg p.csid)

abbrev pub behind_header : Plan → Input → ChunkStream
behind_header p i = headed p (header_in p (peek i.buf)) (before p i)

-- `s` is the stream that an unfinished message leaves.
pub record Left (p : Plan) (i j : Input) (s : ChunkStream) : Type 0 where
  pub there : get j.reg p.csid ≡ some s
  pub live : s.reassembling ≡ true
  pub count : s.reassembly_bytes_read ≡ length (collected p i)
  pub timestamp : s.type0_timestamp ≡ (behind_header p i).type0_timestamp
  pub goal : s.type0_msg_length ≡ (behind_header p i).type0_msg_length
  pub kind : s.type0_msg_type_id ≡ (behind_header p i).type0_msg_type_id
  pub stream_id : s.type0_msg_stream_id ≡ (behind_header p i).type0_msg_stream_id
  pub extended : s.type0_ext_ts ≡ (behind_header p i).type0_ext_ts
  pub header : s.has_message_header ≡ (behind_header p i).has_message_header
  pub size : s.chunk_size ≡ (behind_header p i).chunk_size
  pub sum :
      j.reg.reassembly_bytes_in_use
      ≡ i.reg.reassembly_bytes_in_use - replaced p.fmt (before p i) + p.to_read

-- The stream that a finished message leaves has its header, and no bytes of a message.
pub record Stays (p : Plan) (i : Input) (s : ChunkStream) : Type 0 where
  pub timestamp : s.type0_timestamp ≡ (behind_header p i).type0_timestamp
  pub goal : s.type0_msg_length ≡ (behind_header p i).type0_msg_length
  pub kind : s.type0_msg_type_id ≡ (behind_header p i).type0_msg_type_id
  pub stream_id : s.type0_msg_stream_id ≡ (behind_header p i).type0_msg_stream_id
  pub header : s.has_message_header ≡ (behind_header p i).has_message_header
  pub idle : s.reassembly_bytes_read ≡ 0

-- The message that is handed out has the fields of the stream behind the header, and its payload stays
-- with the stream.
pub record Handed (p : Plan) (i j : Input) (res : ReadResult) : Type 0 where
  pub timestamp : res.msg.timestamp ≡ (behind_header p i).type0_timestamp
  pub kind : res.msg.msg_type_id ≡ (behind_header p i).type0_msg_type_id
  pub stream_id : res.msg.msg_stream_id ≡ (behind_header p i).type0_msg_stream_id
  pub stays :
      (s : ChunkStream) × (get j.reg p.csid ≡ some s)
      × (res.payload ≡ some s.last_payload)
      × Stays p i s

pub record SameLimits (a b : ChunkRegistry) : Type 0 where
  pub bytes : b.max_reassembly_bytes ≡ a.max_reassembly_bytes
  pub active : b.max_active_csids ≡ a.max_active_csids
  pub longest : b.max_msg_length ≡ a.max_msg_length
  pub default : b.default_size ≡ a.default_size

pub record Took (p : Plan) (eff_len : ℕ) (msg : ChunkMessage) (i j : Input) (res : ReadResult)
    : Type 0 where
  pub valid : IsValid j.buf
  pub inv : RegInv j.reg
  pub rest : peek j.buf ≡ drop (header_bytes p + p.to_read) (peek i.buf)
  pub apart : (id : ℕ) → ((id == p.csid) ≡ true) ⊎ (get j.reg id ≡ get i.reg id)
  pub progress : Progress p eff_len msg i j res
  pub detail :
      ((res.rc ≡ 0) × ((s : ChunkStream) × Left p i j s)) ⊎ ((res.rc ≡ 1) × Handed p i j res)
  pub limits : SameLimits i.reg j.reg

headed_buf :
    (p : Plan) (h : Header) (s : ChunkStream)
    → (headed p h s).reassembly_buf
      ≡ (if leb p.fmt 1 then Buffer.reset s.reassembly_buf else s.reassembly_buf)
unfolding apply_header
headed_buf p h s = ground arith

opened_pending :
    (reg : ChunkRegistry) (csid size : ℕ) (s : ChunkStream)
    → s ≡ map_or (fresh_stream csid size) (λ t. t) (get reg csid)
    → peek s.reassembly_buf ≡ pending reg csid
opened_pending reg csid size s e =
    ap (λ (t : ChunkStream). peek t.reassembly_buf) e ∙ of_option (get reg csid)
  where
    of_option :
        (o : Option ChunkStream)
        → peek (map_or (fresh_stream csid size) (λ t. t) o).reassembly_buf
          ≡ map_or [] (λ t. peek t.reassembly_buf) o
    of_option none = fresh_pending csid size
    of_option (some t) = refl

-- The stream behind the header holds what it held, or nothing for formats 0 and 1.
headed-prior :
    (p : Plan) (h : Header) (s : ChunkStream) (reg : ChunkRegistry) (csid : ℕ)
    → IsValid s.reassembly_buf
    → peek s.reassembly_buf ≡ pending reg csid
    → peek (headed p h s).reassembly_buf ≡ prior p.fmt reg csid
headed-prior p h s reg csid v e = elim (Bool-cases (leb p.fmt 1)) [
  | inl first ↦
      let (w, seen, own) = reset_lem s.reassembly_buf v in rw (headed_buf p h s, first) seen
  | inr next ↦ rw (headed_buf p h s, next) e
]

module _ (i : Input) (p : Plan) (msg : ChunkMessage) (v : RegInv i.reg) (w : IsValid i.buf)
    (r : Ready (peek i.buf) (available i.buf) i.reg p) (small : r.eff_len < 2 ^ 24) where
  take_at_slot :
      (next : ChunkRegistry) (idx : ℕ) (opened : get_or_create_index p.csid i.reg ≡ (next, ok idx))
      (o : Opened i.reg p.csid next idx)
      → (j : Input) × (res : ReadResult) × (take_chunk p msg i ≡ (j, ok res))
        × Took p r.eff_len msg i j res
  take_at_slot next idx opened o =
      let (b, c, e, bv, rest, bo, cv, ce, co) = loaded_run i p msg v w r next idx opened o small in
      let goal : ChunkStream = target i p msg v w r next idx opened o in
      let tb = target-Begun i p msg v w r next idx opened o in
      let s : ChunkStream = full i p msg v w r next idx opened o small c cv co in
      let read_so_far = full_read i p msg v w r next idx opened o small c cv co in
      let all_bytes : peek c ≡ collected p i =
        ce
        ∙ ap (λ xs. xs ++ part i p msg v w r next idx opened o)
            (headed-prior p _ (stream_at next idx) i.reg p.csid
              (opened_inv (peek i.buf) (available i.buf) i.reg p r next idx o).valid
              (opened_pending i.reg p.csid i.reg.default_size (stream_at next idx) o.stream)) in
      let stored = full_available i p msg v w r next idx opened o small c cv co ce in
      let len : length (collected p i) ≡ s.reassembly_bytes_read =
        omega (arith, ap length all_bytes, length-peek c cv, stored, read_so_far) in
      let behind : goal ≡ behind_header p i = ap (headed p (header_in p (peek i.buf))) o.stream in
      let limits : SameLimits i.reg next = record {
        bytes = o.same_limit;
        active = o.same_cap;
        longest = o.same_max;
        default = o.same_default;
      } in
      elim (Bool-cases (ltb s.reassembly_bytes_read s.type0_msg_length)) [
        | inl less ↦
            let lt = ltb→lt _ _ less in
            let jreg = partial_reg i p msg v w r next idx opened o small c cv co ce in
            let inv = partial-RegInv i p msg v w r next idx opened o small c cv co ce lt in
            (
              record { buf = b; reg = jreg },
              waiting msg,
              e ∙ finish_partial next idx o.slot.0 b p msg s _ _ lt,
              record {
                valid = bv;
                inv = inv;
                rest = rest;
                apart = unless p.csid (λ id ne.
                    get-with_slot_apart next o.inv p.csid idx o.index _ _ _ inv id ne
                    ∙ o.apart id ne);
                progress = inl (
                  omega (arith, len, tb.goal, lt),
                  refl,
                  ap (map_or [] (λ t. peek t.reassembly_buf))
                        (get-with_slot next o.inv p.csid idx o.index _ _ _ inv)
                      ∙ all_bytes,
                );
                detail = inl (
                  refl,
                  (
                    cleared true s,
                    record {
                      there = get-with_slot next o.inv p.csid idx o.index _ _ _ inv;
                      live = refl;
                      count = sym len;
                      timestamp = ap (λ (t : ChunkStream). t.type0_timestamp) behind;
                      goal = ap (λ (t : ChunkStream). t.type0_msg_length) behind;
                      kind = ap (λ (t : ChunkStream). t.type0_msg_type_id) behind;
                      stream_id = ap (λ (t : ChunkStream). t.type0_msg_stream_id) behind;
                      extended = ap (λ (t : ChunkStream). t.type0_ext_ts) behind;
                      header = ap (λ (t : ChunkStream). t.has_message_header) behind;
                      size = ap (λ (t : ChunkStream). t.chunk_size) behind;
                      sum = λ k. o.same_bytes k - replaced p.fmt (o.stream k) + p.to_read;
                    },
                  ),
                );
                limits = record {
                  bytes = limits.bytes;
                  active = limits.active;
                  longest = limits.longest;
                  default = limits.default;
                };
              },
            )
        | inr more ↦
            let le = ltb→le _ _ more in
            let jreg = complete_reg i p msg v w r next idx opened o small c cv co ce in
            let inv = complete-RegInv i p msg v w r next idx opened o small c cv co ce in
            let (tv, te, tp, to) = take_out_lem c cv in
            (
              record { buf = b; reg = jreg },
              record { rc = 1; msg = message_of p s; payload = some (take_out c).1 },
              e ∙ finish_complete next idx o.slot.0 b p msg s _ _ le,
              record {
                valid = bv;
                inv = inv;
                rest = rest;
                apart = unless p.csid (λ id ne.
                    get-with_slot_apart next o.inv p.csid idx o.index _ _ _ inv id ne
                    ∙ o.apart id ne);
                progress = inr (
                  omega (
                    arith,
                    len,
                    tb.goal,
                    le,
                    read_so_far,
                    target_fits i p msg v w r next idx opened o,
                  ),
                  refl,
                  ap some (tp ∙ all_bytes),
                  refl,
                  refl,
                  tb.goal,
                  ap (map_or [] (λ t. peek t.reassembly_buf))
                        (get-with_slot next o.inv p.csid idx o.index _ _ _ inv)
                      ∙ te,
                );
                detail = inr (
                  refl,
                  record {
                    timestamp = ap (λ (t : ChunkStream). t.type0_timestamp) behind;
                    kind = ap (λ (t : ChunkStream). t.type0_msg_type_id) behind;
                    stream_id = ap (λ (t : ChunkStream). t.type0_msg_stream_id) behind;
                    stays = (
                      _,
                      get-with_slot next o.inv p.csid idx o.index _ _ _ inv,
                      refl,
                      record {
                        timestamp = ap (λ (t : ChunkStream). t.type0_timestamp) behind;
                        goal = ap (λ (t : ChunkStream). t.type0_msg_length) behind;
                        kind = ap (λ (t : ChunkStream). t.type0_msg_type_id) behind;
                        stream_id = ap (λ (t : ChunkStream). t.type0_msg_stream_id) behind;
                        header = ap (λ (t : ChunkStream). t.has_message_header) behind;
                        idle = refl;
                      },
                    );
                  },
                );
                limits = record {
                  bytes = limits.bytes;
                  active = limits.active;
                  longest = limits.longest;
                  default = limits.default;
                };
              },
            )
      ]

  -- A chunk that phase 1 lets through is read, and it adds its payload to its own message only.
  pub take_chunk-Took :
      (j : Input) × (res : ReadResult) × (take_chunk p msg i ≡ (j, ok res))
      × Took p r.eff_len msg i j res
  take_chunk-Took =
      let (next, idx, opened, o) =
        open_run i.reg p.csid (can_get_or_create i.reg p.csid) (get_or_create_index p.csid i.reg)
          r.can_open (get_or_create_index_cases i.reg p.csid v) in
      take_at_slot next idx opened o

-- A chunk that is taken leaves fewer bytes.
pub Took-less :
    (p : Plan) (n : ℕ) (msg : ChunkMessage) (i j : Input) (res : ReadResult)
    → Took p n msg i j res
    → IsValid i.buf
    → 1 ≤ header_bytes p
    → 1 ≤ available i.buf
    → available j.buf < available i.buf
Took-less p n msg i j res t v h k = omega (
  arith,
  ap length t.rest,
  length-drop (header_bytes p + p.to_read) (peek i.buf),
  length-peek i.buf v,
  length-peek j.buf t.valid,
)
