-- ===== src/Chunk/Writer/Emit.antt =====
-- src/chunk/writer.rs: the bytes that the writer adds.
use librtmp.Common.{
  ℕ, zero, suc, ◌+◌, ◌-◌, ◌*◌, ◌/◌, ◌≤◌, ◌≡◌, refl, sym, ap, ◌∙◌, inl, inr, List, [], ◌∷◌, ◌++◌,
  arith, leb, if◌then◌else◌, length, take, drop, length-append, length-take_le, length-drop,
  take-append-drop, take-append, drop-append, drop-drop, append-nil, take_all, Bool-cases, le→leb,
  leb→le, leb→lt,
}
use native.Mathlib.Nat.{div-eq_of_lt, div-eq-sub-div}
use librtmp.Common.Result.{ok, M}
use librtmp.Buffer.{Buffer, peek}
use librtmp.Buffer.Codec.{Emits, Emits-put, Emits-seq, put}
use librtmp.Chunk.Writer.{write_chunks}

-- The chunks of a payload with a header between any two, on as much fuel as `write_chunks`.
unfoldable pub fragments : ℕ → List ℕ → ℕ → List ℕ → List ℕ
fragments zero chdr size payload = []
fragments (suc fuel) chdr size payload =
    let rest = fragments fuel chdr size (drop size payload) in
    if leb (length payload) size then payload else take size payload ++ (chdr ++ rest)

-- What a receiver keeps of `n` payload bytes in chunks of `size` with headers of `h` bytes.
unfoldable pub defragment : ℕ → ℕ → ℕ → ℕ → List ℕ → List ℕ
defragment zero h size n wire = []
defragment (suc fuel) h size n wire =
    let rest = defragment fuel h size (n - size) (drop (size + h) wire) in
    if leb n size then take n wire else take size wire ++ rest

Emits-nothing : (k : M Buffer (Unit {0})) → ((b : Buffer) → k b ≡ (b, ok tt)) → Emits k []
Emits-nothing k e b v o h = (b, e b, v, sym (append-nil (peek b)), o)

pub Emits-write_chunks :
    (fuel : ℕ) (chdr : List ℕ) (size : ℕ) (payload : List ℕ)
    → length payload ≤ fuel
    → 1 ≤ size
    → Emits (write_chunks fuel chdr size payload) (fragments fuel chdr size payload)
unfolding write_chunks fragments
Emits-write_chunks zero chdr size [] h k = Emits-nothing _ (λ b. refl)
Emits-write_chunks zero chdr size (x ∷ xs) h k = absurd (omega arith)
Emits-write_chunks (suc fuel) chdr size [] h k =
    rw (le→leb 0 size (omega arith)) (Emits-nothing _ (λ b. refl))
Emits-write_chunks (suc fuel) chdr size (x ∷ xs) h k =
    elim (Bool-cases (leb (length (x ∷ xs)) size)) [
      | inl last ↦ λ b v o room. rw last (Emits-put (x ∷ xs) b v o (rw last at room))
      | inr more ↦ λ b v o room.
          let short : length (drop size (x ∷ xs)) ≤ fuel =
            omega (arith, length-drop size (x ∷ xs)) in
          rw more (
            Emits-seq (put (take size (x ∷ xs))) _ (take size (x ∷ xs))
              (chdr ++ fragments fuel chdr size (drop size (x ∷ xs)))
              (Emits-put (take size (x ∷ xs)))
              (Emits-seq (put chdr) (write_chunks fuel chdr size (drop size (x ∷ xs))) chdr
                (fragments fuel chdr size (drop size (x ∷ xs))) (Emits-put chdr)
                (Emits-write_chunks fuel chdr size (drop size (x ∷ xs)) short k))
              b v o (rw more at room))
    ]

module _ (chdr : List ℕ) (size : ℕ) (k : 1 ≤ size) where
  -- One header for each chunk but the first.
  pub length-fragments :
      (fuel : ℕ) (payload : List ℕ)
      → length payload ≤ fuel
      → length (fragments fuel chdr size payload)
        ≡ length payload + (length payload - 1) / size * length chdr
  unfolding fragments
  length-fragments zero payload h =
      let e : (length payload - 1) / size ≡ 0 = div-eq_of_lt (omega arith) in rw e (omega arith)
  length-fragments (suc fuel) payload h = elim (Bool-cases (leb (length payload) size)) [
    | inl last ↦
        let e : (length payload - 1) / size ≡ 0 = div-eq_of_lt (omega (arith, leb→le _ _ last)) in
        rw (last, e) (omega arith)
    | inr more ↦
        let lt = leb→lt _ _ more in
        let d = length-drop size payload in
        let e : (length payload - 1) / size ≡ (length payload - 1 - size) / size + 1 =
          div-eq-sub-div (omega arith) (omega arith) in
        let same : length (drop size payload) - 1 ≡ length payload - 1 - size = omega arith in
        let rest = length-fragments fuel (drop size payload) (omega arith) in
        let body : length (fragments fuel chdr size (drop size payload))
            ≡ length payload - size + (length payload - 1 - size) / size * length chdr =
          rw same at
            (rest ∙ ap (λ n. n + (length (drop size payload) - 1) / size * length chdr) d) in
        let once_more : (q c : ℕ) → (q + 1) * c ≡ q * c + c = λ q c. omega arith in
        rw (more, e, once_more ((length payload - 1 - size) / size) (length chdr))
          (omega (
            arith,
            body,
            length-append (take size payload)
                (chdr ++ fragments fuel chdr size (drop size payload)),
            length-append chdr (fragments fuel chdr size (drop size payload)),
            length-take_le size payload (omega arith),
          ))
  ]

  -- Taking the headers out again leaves the payload.
  pub defragment-fragments :
      (fuel : ℕ) (payload : List ℕ)
      → length payload ≤ fuel
      → defragment fuel (length chdr) size (length payload) (fragments fuel chdr size payload)
        ≡ payload
  unfolding fragments defragment
  defragment-fragments zero [] h = refl
  defragment-fragments zero (x ∷ xs) h = absurd (omega arith)
  defragment-fragments (suc fuel) payload h = elim (Bool-cases (leb (length payload) size)) [
    | inl last ↦ rw last (take_all (length payload) payload (omega arith))
    | inr more ↦
        let lt = leb→lt _ _ more in
        let rest : List ℕ = fragments fuel chdr size (drop size payload) in
        let front : List ℕ = take size payload in
        let exact : size ≡ length front = sym (length-take_le size payload (omega arith)) in
        let behind : drop (size + length chdr) (front ++ (chdr ++ rest)) ≡ rest =
          sym (drop-drop (length chdr) size (front ++ (chdr ++ rest)))
          ∙ ap (drop (length chdr)) (drop-append size front (chdr ++ rest) exact)
          ∙ drop-append (length chdr) chdr rest refl in
        let ih : defragment fuel (length chdr) size (length payload - size) rest
            ≡ drop size payload =
          rw (length-drop size payload) at (
            defragment-fragments fuel (drop size payload)
              (omega (arith, length-drop size payload))) in
        rw (more, take-append size front (chdr ++ rest) exact, behind, ih)
          (take-append-drop size payload)
  ]
