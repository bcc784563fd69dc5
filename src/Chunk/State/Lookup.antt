-- ===== src/Chunk/State/Lookup.antt =====
-- src/chunk/state.rs: `get_or_create_index` finds the stream of an id, or opens a fresh one.
use librtmp.Common.{
  ℕ, ◌+◌, ◌≤◌, ◌<◌, ◌≡◌, refl, sym, ap, ◌∙◌, subst, inl, inr, Bool, true, false, not, ◌&&◌, Option,
  none, some, [], ◌∷◌, ◌++◌, arith, leb, ◌==◌, length, length-append, Bool-cases, ==_iff,
}
use librtmp.Common.Result.{Result, ok, err, ErrorCode}
use librtmp.Chunk.State.{
  get, slot_stream, map_or, ChunkStream, ChunkRegistry, stream_at, find_slot, fresh_stream, create,
  get_or_create_at, get_or_create_index, can_create_at, can_get_or_create, insert_index,
  max_chunk_streams,
}
use librtmp.Chunk.State.Slots.{flag, nth-append_lt, nth-append_last}
use librtmp.Chunk.State.Inv.{StreamInv, RegInv, Slot, find_slot-Slot, find_slot_lem, stream_inv}
use librtmp.Chunk.State.Open.{extended, fresh_fields, extended-RegInv}

-- `next` is `reg` with the stream of `csid` in slot `idx`: the one it had, or a fresh one.
pub record Opened (reg : ChunkRegistry) (csid : ℕ) (next : ChunkRegistry) (idx : ℕ) : Type 0 where
  pub inv : RegInv next
  pub slot : Slot next csid idx
  pub index : next.csid_index csid ≡ some idx
  -- The streams of the other ids are the ones they were.
  pub apart : (id : ℕ) → (id == csid) ≡ false → get next id ≡ get reg id
  pub stream :
      stream_at next idx ≡ map_or (fresh_stream csid reg.default_size) (λ s. s) (get reg csid)
  pub same_bytes : next.reassembly_bytes_in_use ≡ reg.reassembly_bytes_in_use
  pub same_count : next.reassembling_count ≡ reg.reassembling_count
  pub same_limit : next.max_reassembly_bytes ≡ reg.max_reassembly_bytes
  pub same_cap : next.max_active_csids ≡ reg.max_active_csids
  pub same_max : next.max_msg_length ≡ reg.max_msg_length
  pub same_default : next.default_size ≡ reg.default_size
  -- An idle stream is only handed out below the cap on active streams.
  pub below_cap : next.reassembling_count + 1 ≤ next.max_active_csids + flag (stream_at next idx)

pub get-none : (reg : ChunkRegistry) (csid : ℕ) → find_slot reg csid ≡ none → get reg csid ≡ none
unfolding get
get-none reg csid e = ap (slot_stream reg) e

pub get-some :
    (reg : ChunkRegistry) (csid idx : ℕ)
    → find_slot reg csid ≡ some idx
    → get reg csid ≡ some (stream_at reg idx)
unfolding get
get-some reg csid idx e = ap (slot_stream reg) e

-- What a call of `get_or_create_index` did: it opened a slot, or it changed nothing.
abbrev pub OpenResult : ChunkRegistry → ℕ → Bool → ChunkRegistry × Result ℕ → Type 0
OpenResult reg csid can (next, ok idx) = (can ≡ true) × Opened reg csid next idx
OpenResult reg csid can (next, err e) = (can ≡ false) × (next ≡ reg) × (e ≡ ErrorCode.chunk)

index_self : (index : ℕ → Option ℕ) (csid idx : ℕ) → insert_index index csid idx csid ≡ some idx
index_self index csid idx = rw ((==_iff csid csid).1 refl)

-- Under the invariant the map alone tells the stream.
pub get_lem :
    (reg : ChunkRegistry)
    → RegInv reg
    → (csid : ℕ) → get reg csid ≡ slot_stream reg (reg.csid_index csid)
unfolding get
get_lem reg v csid = ap (slot_stream reg) (find_slot_lem reg v csid)

extended_slot :
    (reg : ChunkRegistry) (s : ChunkStream) (index : ℕ → Option ℕ) (o : Option ℕ)
    → ((idx : ℕ) → o ≡ some idx → idx < length reg.streams)
    → slot_stream (record reg { streams = reg.streams ++ (s ∷ []); csid_index = index }) o
      ≡ slot_stream reg o
extended_slot reg s index none h = refl
extended_slot reg s index (some idx) h =
    ap some (nth-append_lt reg.streams (s ∷ []) idx (h idx refl))

extended_apart :
    (reg : ChunkRegistry) (csid id : ℕ)
    → RegInv reg
    → RegInv (extended csid reg)
    → (id == csid) ≡ false
    → get (extended csid reg) id ≡ get reg id
extended_apart reg csid id v w ne =
    get_lem (extended csid reg) w id
    ∙ ap (slot_stream (extended csid reg))
        (index_other reg.csid_index csid (length reg.streams) id ne)
    ∙ extended_slot reg (fresh_stream csid reg.default_size)
        (insert_index reg.csid_index csid (length reg.streams)) (reg.csid_index id)
        (λ idx e. (v.slots id idx e).0)
    ∙ sym (get_lem reg v id)
  where
    index_other :
        (index : ℕ → Option ℕ) (csid idx id : ℕ)
        → (id == csid) ≡ false
        → insert_index index csid idx id ≡ index id
    index_other index csid idx id ne = rw ne

extended-Opened :
    (reg : ChunkRegistry) (csid : ℕ)
    → RegInv reg
    → find_slot reg csid ≡ none
    → length reg.streams < max_chunk_streams
    → reg.reassembling_count < reg.max_active_csids
    → Opened reg csid (extended csid reg) (length reg.streams)
extended-Opened reg csid v e h k =
    let w = extended-RegInv reg csid v h in
    let at_end = nth-append_last reg.streams (fresh_stream csid reg.default_size) in
    let (fc, fu, fb, ff) = fresh_fields csid reg.default_size in
    record {
      inv = w;
      slot = (
        omega (arith, length-append reg.streams (fresh_stream csid reg.default_size ∷ [])),
        ap (λ (s : ChunkStream). s.csid) at_end ∙ fc,
        ap (λ (s : ChunkStream). s.in_use) at_end ∙ fu,
      );
      index = index_self reg.csid_index csid (length reg.streams);
      apart = λ id ne. extended_apart reg csid id v w ne;
      stream =
          at_end
          ∙ sym (ap (map_or (fresh_stream csid reg.default_size) (λ s. s)) (get-none reg csid e));
      same_bytes = refl;
      same_count = refl;
      same_limit = refl;
      same_cap = refl;
      same_max = refl;
      same_default = refl;
      below_cap = omega arith;
    }

slot-Opened :
    (reg : ChunkRegistry) (csid idx : ℕ)
    → RegInv reg
    → find_slot reg csid ≡ some idx
    → reg.reassembling_count + 1 ≤ reg.max_active_csids + flag (stream_at reg idx)
    → Opened reg csid reg idx
slot-Opened reg csid idx v e h = record {
  inv = v;
  slot = find_slot-Slot reg v csid idx e;
  index = sym (find_slot_lem reg v csid) ∙ e;
  apart = λ id ne. refl;
  stream =
      sym (ap (map_or (fresh_stream csid reg.default_size) (λ s. s)) (get-some reg csid idx e));
  same_bytes = refl;
  same_count = refl;
  same_limit = refl;
  same_cap = refl;
  same_max = refl;
  same_default = refl;
  below_cap = h;
}

active_bound :
    (reg : ChunkRegistry)
    → RegInv reg
    → (idx : ℕ) → idx < length reg.streams
    → not (stream_at reg idx).reassembling && leb reg.max_active_csids reg.reassembling_count
      ≡ false
    → reg.reassembling_count + 1 ≤ reg.max_active_csids + flag (stream_at reg idx)
active_bound reg v idx h e = ground arith

get_or_create_at_cases :
    (reg : ChunkRegistry) (csid : ℕ)
    → RegInv reg
    → (o : Option ℕ) → find_slot reg csid ≡ o
    → OpenResult reg csid (can_create_at reg o) (get_or_create_at csid o reg)
unfolding create
get_or_create_at_cases reg csid v none e =
    elim (Bool-cases (leb reg.max_active_csids reg.reassembling_count)) [
      | inl full ↦ rw full (refl, refl, refl)
      | inr free ↦ elim (Bool-cases (leb max_chunk_streams (length reg.streams))) [
        | inl long ↦ rw (free, long) (ground arith, refl, refl)
        | inr short ↦
            rw (free, short)
              (ground arith, extended-Opened reg csid v e (ground arith) (ground arith))
      ]
    ]
get_or_create_at_cases reg csid v (some idx) e =
    elim (Bool-cases
      (not (stream_at reg idx).reassembling && leb reg.max_active_csids reg.reassembling_count)) [
        | inl full ↦ rw full (ground arith, refl, refl)
        | inr free ↦ rw free (
          ground arith,
          slot-Opened reg csid idx v e
              (active_bound reg v idx (find_slot-Slot reg v csid idx e).0 free),
        )
      ]

-- `can_get_or_create` tells exactly when `get_or_create_index` succeeds; then it opens the slot of
-- the id, and else it changes nothing.
pub get_or_create_index_cases :
    (reg : ChunkRegistry) (csid : ℕ)
    → RegInv reg
    → OpenResult reg csid (can_get_or_create reg csid) (get_or_create_index csid reg)
unfolding can_get_or_create get_or_create_index
get_or_create_index_cases reg csid v = get_or_create_at_cases reg csid v (find_slot reg csid) refl

-- A stream that the registry has is well formed.
pub get_inv :
    (reg : ChunkRegistry)
    → RegInv reg
    → (csid : ℕ) (s : ChunkStream) → get reg csid ≡ some s
    → StreamInv s
get_inv reg v csid s e = of_slot (reg.csid_index csid) refl (sym (get_lem reg v csid) ∙ e)
  where
    of_slot : (o : Option ℕ) → reg.csid_index csid ≡ o → slot_stream reg o ≡ some s → StreamInv s
    of_slot none k h = absurd (cc h)
    of_slot (some idx) k h =
        let (lt, id, used) = v.slots csid idx k in
        let same : stream_at reg idx ≡ s = cc h in subst StreamInv same (stream_inv reg v idx lt)
