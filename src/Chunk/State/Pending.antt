-- ===== src/Chunk/State/Pending.antt =====
-- src/chunk/state.rs: the bytes of an unfinished message that each chunk-stream id has collected.
use librtmp.Common.{
  ℕ, ◌≡◌, refl, sym, ap, ◌∙◌, ◌⊎◌, inl, inr, true, false, Option, none, some, List, [], arith, ◌==◌,
  Bool-cases, ==_iff,
}
use librtmp.Buffer.{peek, with_capacity}
use librtmp.Chunk.State.{
  ChunkStream, ChunkRegistry, get, slot_stream, map_or, stream_at, fresh_stream,
}
use librtmp.Chunk.State.Slots.{nth-modify_self, nth-modify_ne}
use librtmp.Chunk.State.Inv.{RegInv, with_slot}
use librtmp.Chunk.State.Lookup.{get_lem}

-- The payload bytes that wait for the rest of their message.
abbrev pub pending : ChunkRegistry → ℕ → List ℕ
pending reg csid = map_or [] (λ s. peek s.reassembly_buf) (get reg csid)

pub fresh_pending : (csid size : ℕ) → peek (fresh_stream csid size).reassembly_buf ≡ []
unfolding fresh_stream peek with_capacity
fresh_pending csid size = refl

-- A claim on every id but one, without a condition.
pub unless {ℓ} :
    {A : ℕ → Type ℓ} (csid : ℕ)
    → ((id : ℕ) → (id == csid) ≡ false → A id)
    → (id : ℕ) → ((id == csid) ≡ true) ⊎ A id
unless csid f id = elim (Bool-cases (id == csid)) [
  | inl same ↦ inl same
  | inr other ↦ inr (f id other)
]

-- A change of one slot is seen under the id of that slot and under no other.
module _ (reg : ChunkRegistry) (v : RegInv reg) (csid idx : ℕ) (e : reg.csid_index csid ≡ some idx)
    (f : ChunkStream → ChunkStream) (bytes count : ℕ)
    (w : RegInv (with_slot reg idx f bytes count)) where
  pub get-with_slot : get (with_slot reg idx f bytes count) csid ≡ some (f (stream_at reg idx))
  get-with_slot =
      get_lem (with_slot reg idx f bytes count) w csid
      ∙ ap (slot_stream (with_slot reg idx f bytes count)) e
      ∙ ap some (nth-modify_self reg.streams idx f (v.slots csid idx e).0)

  slot_apart :
      (id : ℕ)
      → (id == csid) ≡ false
      → (o : Option ℕ) → reg.csid_index id ≡ o
      → slot_stream (with_slot reg idx f bytes count) o ≡ slot_stream reg o
  slot_apart id ne none k = refl
  slot_apart id ne (some j) k = elim (Bool-cases (idx == j)) [
    | inl same ↦
        let (lt, c, u) = v.slots csid idx e in
        let (lt', c', u') = v.slots id j k in
        let q : idx ≡ j = (==_iff idx j).0 same in
        let z : id ≡ csid = sym c' ∙ ap (λ n. (stream_at reg n).csid) (sym q) ∙ c in
        absurd (ground arith)
    | inr other ↦ ap some (nth-modify_ne reg.streams idx j f (ground arith))
  ]

  pub get-with_slot_apart :
      (id : ℕ) → (id == csid) ≡ false → get (with_slot reg idx f bytes count) id ≡ get reg id
  get-with_slot_apart id ne =
      get_lem (with_slot reg idx f bytes count) w id
      ∙ slot_apart id ne (reg.csid_index id) refl
      ∙ sym (get_lem reg v id)
