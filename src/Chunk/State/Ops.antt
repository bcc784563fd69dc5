-- ===== src/Chunk/State/Ops.antt =====
-- src/chunk/state.rs: the registry's operations keep its invariant.
use librtmp.Common.{
  ℕ, ◌+◌, ◌-◌, ◌≤◌, ◌<◌, ◌≡◌, refl, sym, ap, ◌∙◌, subst, ◌⊎◌, Bool, true, false, Option, none, some,
  [], arith, ◌==◌, length,
}
use librtmp.Common.Result.{Result, ok, err}
use librtmp.Buffer.{available, peek, take_out}
use librtmp.Buffer.Wf.{IsValid, length-peek}
use librtmp.Buffer.Queue.{take_out_lem}
use librtmp.Chunk.State.{
  ChunkStream, ChunkRegistry, modify_stream, stream_at, find_slot, get_or_create_index,
  can_get_or_create, get, map_or, release_stream_reassembly, release_reassembly_bytes, reset,
  reset_stream, abort, abort_stream, drop_message, new, destroy, init,
}
use librtmp.Chunk.State.Slots.{flag, modify-modify, total_bytes, active_count}
use librtmp.Chunk.State.Inv.{
  RegInv, StreamInv, with_slot, with_slot-RegInv, stream_inv, stream_counted,
  set_stream_reassembling_lem, find_slot-Slot, find_slot_lem,
}
use librtmp.Chunk.State.Lookup.{OpenResult, get-none, get_or_create_index_cases}
use librtmp.Chunk.State.Pending.{pending, unless, get-with_slot, get-with_slot_apart}

-- A new registry is well formed.
pub new-RegInv : RegInv new
unfolding new total_bytes active_count
new-RegInv = record {
  slots = λ csid idx e. absurd (cc e);
  each = tt;
  bytes = refl;
  count = refl;
  table = omega arith;
  budget = omega arith;
  cap = omega arith;
  word = omega arith;
  default = omega arith;
}

pub destroy-RegInv : (reg : ChunkRegistry) → RegInv reg → RegInv (destroy reg)
unfolding destroy total_bytes active_count
destroy-RegInv reg v = record {
  slots = λ csid idx e. absurd (cc e);
  each = tt;
  bytes = refl;
  count = refl;
  table = omega arith;
  budget = omega arith;
  cap = omega arith;
  word = v.word;
  default = v.default;
}

pub init-RegInv : (reg : ChunkRegistry) → RegInv reg → RegInv (init reg)
unfolding init
init-RegInv reg v = record {
  slots = v.slots;
  each = v.each;
  bytes = v.bytes;
  count = v.count;
  table = v.table;
  budget = v.budget;
  cap = v.cap;
  word = v.word;
  default = omega arith;
}

-- Opening a slot keeps the invariant, whether it succeeds or not.
pub get_or_create_index-RegInv :
    (reg : ChunkRegistry) (csid : ℕ) → RegInv reg → RegInv (get_or_create_index csid reg).0
get_or_create_index-RegInv reg csid v =
    of_result (can_get_or_create reg csid) (get_or_create_index csid reg)
      (get_or_create_index_cases reg csid v)
  where
    of_result : (can : Bool) (r : ChunkRegistry × Result ℕ) → OpenResult reg csid can r → RegInv r.0
    of_result can (next, ok idx) (c, o) = o.inv
    of_result can (next, err e) (c, same, k) = subst RegInv (sym same) v

-- `f` empties a stream's message.
abbrev Empties : (ChunkStream → ChunkStream) → ChunkStream → Type 0
Empties f s =
    StreamInv (f s)
    × (peek (f s).reassembly_buf ≡ [])
    × (flag (f s) ≡ 0)
    × ((f s).csid ≡ s.csid)
    × ((f s).in_use ≡ s.in_use)

abbrev pub unflagged : (ChunkStream → ChunkStream) → ChunkStream → ChunkStream
unflagged f s = f (record s { reassembling = false })

module _ (reg : ChunkRegistry) (v : RegInv reg) (idx : ℕ) (h : idx < length reg.streams)
    (f : ChunkStream → ChunkStream) where
  abbrev dropped : ChunkRegistry
  dropped =
      with_slot reg idx (unflagged f)
        (reg.reassembly_bytes_in_use - available (stream_at reg idx).reassembly_buf)
        (reg.reassembling_count + 0 - flag (stream_at reg idx))

  drop_message_lem : drop_message f (some idx) reg ≡ dropped
  unfolding release_stream_reassembly release_reassembly_bytes
  drop_message_lem =
      ap (modify_stream idx f) (set_stream_reassembling_lem _ idx false)
      ∙ ap (λ ss. record dropped { streams = ss })
          (modify-modify reg.streams idx (λ t. record t { reassembling = false }) f)

  dropped-RegInv : Empties (unflagged f) (stream_at reg idx) → RegInv dropped
  dropped-RegInv (inv, empty, idle, id, used) =
      let (cb, cn) = stream_counted reg v idx h in
      let none_left : available (unflagged f (stream_at reg idx)).reassembly_buf ≡ 0 = omega (
        arith,
        length-peek (unflagged f (stream_at reg idx)).reassembly_buf inv.valid,
        ap length empty,
      ) in
      with_slot-RegInv reg v idx h (unflagged f) _ _ (id, used) inv (omega (arith, none_left, cb))
        (omega (arith, idle, cn)) (omega (arith, v.budget)) (omega (arith, v.cap))

-- What is left when the unfinished message of `csid` is dropped.
pub record Dropped (csid : ℕ) (reg next : ChunkRegistry) : Type 0 where
  pub inv : RegInv next
  pub none_left : pending next csid ≡ []
  pub apart : (id : ℕ) → ((id == csid) ≡ true) ⊎ (get next id ≡ get reg id)

-- `f` empties every well-formed stream.
abbrev EmptiesAll : (ChunkStream → ChunkStream) → Type 0
EmptiesAll f = (s : ChunkStream) → StreamInv s → Empties (unflagged f) s

module _ (reg : ChunkRegistry) (v : RegInv reg) (csid : ℕ) (f : ChunkStream → ChunkStream)
    (e : EmptiesAll f) where
  drop_message-Dropped :
      (o : Option ℕ) → find_slot reg csid ≡ o → Dropped csid reg (drop_message f o reg)
  drop_message-Dropped none k = record {
    inv = v;
    none_left = rw (get-none reg csid k) refl;
    apart = unless csid (λ id ne. refl);
  }
  drop_message-Dropped (some idx) k =
      let slot = find_slot-Slot reg v csid idx k in
      let index : reg.csid_index csid ≡ some idx = sym (find_slot_lem reg v csid) ∙ k in
      let empties = e (stream_at reg idx) (stream_inv reg v idx slot.0) in
      let inv = dropped-RegInv reg v idx slot.0 f empties in
      rw (drop_message_lem reg v idx slot.0 f) (record {
        inv = inv;
        none_left =
            ap (map_or [] (λ t. peek t.reassembly_buf))
              (get-with_slot reg v csid idx index (unflagged f) _ _ inv)
            ∙ empties.1;
        apart =
            unless csid
              (λ id ne. get-with_slot_apart reg v csid idx index (unflagged f) _ _ inv id ne);
      })

took_out :
    (s : ChunkStream)
    → StreamInv s
    → IsValid (take_out s.reassembly_buf).0 × (available (take_out s.reassembly_buf).0 ≡ 0)
took_out s v =
    let (tv, te, tp, to) = take_out_lem s.reassembly_buf v.valid in
    (tv, omega (arith, length-peek (take_out s.reassembly_buf).0 tv, ap length te))

abort-Empties : EmptiesAll abort
unfolding abort
abort-Empties s v =
    let (tv, te, tp, to) = take_out_lem s.reassembly_buf v.valid in
    (
      record {
        valid = tv;
        growable = to ∙ v.growable;
        buffered = (took_out s v).1;
        part = omega arith;
        short = v.short;
        roomy = v.roomy;
        idle = λ e. refl;
      },
      te,
      refl,
      refl,
      refl,
    )

reset-Empties : (size : ℕ) → 1 ≤ size → EmptiesAll (reset size)
unfolding reset
reset-Empties size h s v =
    let (tv, te, tp, to) = take_out_lem s.reassembly_buf v.valid in
    (
      record {
        valid = tv;
        growable = to ∙ v.growable;
        buffered = (took_out s v).1;
        part = omega arith;
        short = omega arith;
        roomy = h;
        idle = λ e. refl;
      },
      te,
      refl,
      refl,
      refl,
    )

-- An abort message drops what its stream has collected and no other stream's bytes; the registry
-- stays well formed, so the bytes are also given back to the connection's budget.
pub abort_stream-Dropped :
    (csid : ℕ) (reg : ChunkRegistry) → RegInv reg → Dropped csid reg (abort_stream csid reg)
unfolding abort_stream
abort_stream-Dropped csid reg v =
    drop_message-Dropped reg v csid abort abort-Empties (find_slot reg csid) refl

-- A reset of a stream does the same.
pub reset_stream-Dropped :
    (csid : ℕ) (reg : ChunkRegistry) → RegInv reg → Dropped csid reg (reset_stream csid reg)
unfolding reset_stream
reset_stream-Dropped csid reg v =
    drop_message-Dropped reg v csid (reset reg.default_size)
      (reset-Empties reg.default_size v.default) (find_slot reg csid) refl
