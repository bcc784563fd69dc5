-- ===== src/Chunk/State/Inv.antt =====
-- src/chunk/state.rs: the registry's invariant. The cached sums stand for the streams, each stream
-- buffers what it has counted, and the limits hold.
use librtmp.Common.{
  ℕ, ◌+◌, ◌-◌, ◌^◌, ◌≤◌, ◌<◌, ◌≡◌, refl, sym, ap, ◌∙◌, inl, inr, Bool, true, false, Option, none,
  some, arith, ◌==◌, length, if◌then◌else◌, All, Bool-cases, ==_iff,
}
use librtmp.Buffer.{available}
use librtmp.Buffer.Wf.{IsValid}
use librtmp.Chunk.State.{
  ChunkStream, ChunkRegistry, modify, stream_at, find_slot, set_stream_reassembling,
  max_chunk_streams, bool_eq,
}
use librtmp.Chunk.State.Slots.{
  total_bytes, active_count, flag, nth, length-modify, nth-modify_self, nth-modify_ne, modify_ext,
  modify_id, total_bytes-modify, active_count-modify, All-modify, All-nth, sums_ge,
}

pub record StreamInv (s : ChunkStream) : Type 0 where
  pub valid : IsValid s.reassembly_buf
  pub growable : s.reassembly_buf.owned ≡ true
  -- What is buffered is what has been counted.
  pub buffered : available s.reassembly_buf ≡ s.reassembly_bytes_read
  pub part : s.reassembly_bytes_read ≤ s.type0_msg_length
  pub short : s.type0_msg_length < 2 ^ 24
  pub roomy : 1 ≤ s.chunk_size
  pub idle : s.reassembling ≡ false → s.reassembly_bytes_read ≡ 0

-- The slot of a chunk-stream id holds the live stream with that id.
abbrev pub Slot : ChunkRegistry → ℕ → ℕ → Type 0
Slot reg csid idx =
    (idx < length reg.streams)
    × ((stream_at reg idx).csid ≡ csid)
    × ((stream_at reg idx).in_use ≡ true)

pub record RegInv (reg : ChunkRegistry) : Type 0 where
  pub slots : (csid idx : ℕ) → reg.csid_index csid ≡ some idx → Slot reg csid idx
  pub each : All StreamInv reg.streams
  pub bytes : reg.reassembly_bytes_in_use ≡ total_bytes reg.streams
  pub count : reg.reassembling_count ≡ active_count reg.streams
  pub table : length reg.streams ≤ max_chunk_streams
  pub budget : reg.reassembly_bytes_in_use ≤ reg.max_reassembly_bytes
  pub cap : reg.reassembling_count ≤ reg.max_active_csids
  pub word : reg.max_reassembly_bytes < 2 ^ 64
  pub default : 1 ≤ reg.default_size

-- The registry with another stream in one slot and other sums.
abbrev pub with_slot : ChunkRegistry → ℕ → (ChunkStream → ChunkStream) → ℕ → ℕ → ChunkRegistry
with_slot reg idx f bytes count = record reg {
  streams = modify reg.streams idx f;
  reassembly_bytes_in_use = bytes;
  reassembling_count = count;
}

-- `f` keeps the identity of a stream.
abbrev pub KeepsId : (ChunkStream → ChunkStream) → ChunkStream → Type 0
KeepsId f s = ((f s).csid ≡ s.csid) × ((f s).in_use ≡ s.in_use)

module _ (reg : ChunkRegistry) (v : RegInv reg) (idx : ℕ) (h : idx < length reg.streams) where
  with_slot-Slot :
      (f : ChunkStream → ChunkStream)
      → KeepsId f (stream_at reg idx)
      → (csid j bytes count : ℕ) → Slot reg csid j
      → Slot (with_slot reg idx f bytes count) csid j
  with_slot-Slot f (kc, ku) csid j bytes count (lt, id, used) = elim (Bool-cases (idx == j)) [
    | inl same ↦
        let e : idx ≡ j = (==_iff idx j).0 same in
        let k : nth (modify reg.streams idx f) j ≡ f (stream_at reg idx) =
          rw (← e) (nth-modify_self reg.streams idx f h) in
        (
          omega (arith, length-modify reg.streams idx f),
          ap (λ (s : ChunkStream). s.csid) k ∙ kc ∙ rw e id,
          ap (λ (s : ChunkStream). s.in_use) k ∙ ku ∙ rw e used,
        )
    | inr other ↦
        let k = nth-modify_ne reg.streams idx j f (ground arith) in
        (
          omega (arith, length-modify reg.streams idx f),
          ap (λ (s : ChunkStream). s.csid) k ∙ id,
          ap (λ (s : ChunkStream). s.in_use) k ∙ used,
        )
  ]

  -- A change of one stream keeps the invariant if the sums follow it and stay within the limits.
  pub with_slot-RegInv :
      (f : ChunkStream → ChunkStream) (bytes count : ℕ)
      → KeepsId f (stream_at reg idx)
      → StreamInv (f (stream_at reg idx))
      → bytes + available (stream_at reg idx).reassembly_buf
        ≡ reg.reassembly_bytes_in_use + available (f (stream_at reg idx)).reassembly_buf
      → count + flag (stream_at reg idx) ≡ reg.reassembling_count + flag (f (stream_at reg idx))
      → bytes ≤ reg.max_reassembly_bytes
      → count ≤ reg.max_active_csids
      → RegInv (with_slot reg idx f bytes count)
  with_slot-RegInv f bytes count k p eb ec lb lc = record {
    slots = λ csid j e. with_slot-Slot f k csid j bytes count (v.slots csid j e);
    each = All-modify StreamInv reg.streams idx f v.each p;
    bytes = omega (arith, v.bytes, total_bytes-modify reg.streams idx f h);
    count = omega (arith, v.count, active_count-modify reg.streams idx f h);
    table = omega (arith, v.table, length-modify reg.streams idx f);
    budget = lb;
    cap = lc;
    word = v.word;
    default = v.default;
  }

  pub stream_inv : StreamInv (stream_at reg idx)
  stream_inv = All-nth StreamInv reg.streams idx h v.each

  -- The sums count the stream.
  pub stream_counted :
      (available (stream_at reg idx).reassembly_buf ≤ reg.reassembly_bytes_in_use)
      × (flag (stream_at reg idx) ≤ reg.reassembling_count)
  stream_counted =
      let (a, b) = sums_ge reg.streams idx h in
      (omega (arith, v.bytes, a), omega (arith, v.count, b))

bool_eq_sound : (a b : Bool) → bool_eq a b ≡ true → a ≡ b
bool_eq_sound true true e = refl
bool_eq_sound true false e = cc
bool_eq_sound false true e = cc
bool_eq_sound false false e = refl

count_same : (n : ℕ) (a b : Bool) → a ≡ b → n ≡ n + (if b then 1 else 0) - (if a then 1 else 0)
count_same n a b e = ground arith

count_other :
    (n : ℕ) (a b : Bool)
    → bool_eq a b ≡ false
    → (if b then n + 1 else n - 1) ≡ n + (if b then 1 else 0) - (if a then 1 else 0)
count_other n a b e = ground arith

-- The flag of a slot and the count, set together, whatever the flag was.
abbrev pub flagged : ℕ → Bool → ChunkRegistry → ChunkRegistry
flagged idx b reg =
    with_slot reg idx (λ s. record s { reassembling = b }) reg.reassembly_bytes_in_use
      (reg.reassembling_count + (if b then 1 else 0) - flag (stream_at reg idx))

flag_same :
    (reg : ChunkRegistry) (idx : ℕ) (b : Bool)
    → (stream_at reg idx).reassembling ≡ b
    → reg ≡ flagged idx b reg
flag_same reg idx b e =
    let k : reg.streams ≡ modify reg.streams idx (λ s. record s { reassembling = b }) =
      sym (modify_id reg.streams idx)
      ∙ modify_ext reg.streams idx (λ s. s) (λ s. record s { reassembling = b })
          (ap (λ t. record (stream_at reg idx) { reassembling = t }) e) in
    let c = count_same reg.reassembling_count (stream_at reg idx).reassembling b e in
    λ i. record reg { streams = k i; reassembling_count = c i }

pub set_stream_reassembling_lem :
    (reg : ChunkRegistry) (idx : ℕ) (b : Bool)
    → set_stream_reassembling idx b reg ≡ flagged idx b reg
unfolding set_stream_reassembling
set_stream_reassembling_lem reg idx b =
    elim (Bool-cases (bool_eq (stream_at reg idx).reassembling b)) [
      | inl same ↦ rw same (flag_same reg idx b (bool_eq_sound _ b same))
      | inr other ↦ rw other (
          ap
            (λ c. record reg {
              streams = modify reg.streams idx (λ s. record s { reassembling = b });
              reassembling_count = c;
            })
            (count_other reg.reassembling_count (stream_at reg idx).reassembling b other))
    ]

find_slot_of :
    (reg : ChunkRegistry)
    → RegInv reg
    → (csid : ℕ) (o : Option ℕ) → reg.csid_index csid ≡ o
    → find_slot reg csid ≡ o
unfolding find_slot
find_slot_of reg v csid none e = rw (e, find_slot)
find_slot_of reg v csid (some j) e =
    let (lt, id, used) = v.slots csid j e in rw (e, find_slot, used, (==_iff _ _).1 id)

-- With the invariant the map alone decides.
pub find_slot_lem :
    (reg : ChunkRegistry) → RegInv reg → (csid : ℕ) → find_slot reg csid ≡ reg.csid_index csid
find_slot_lem reg v csid = find_slot_of reg v csid (reg.csid_index csid) refl

pub find_slot-Slot :
    (reg : ChunkRegistry)
    → RegInv reg
    → (csid idx : ℕ) → find_slot reg csid ≡ some idx
    → Slot reg csid idx
find_slot-Slot reg v csid idx e = v.slots csid idx (sym (find_slot_lem reg v csid) ∙ e)
