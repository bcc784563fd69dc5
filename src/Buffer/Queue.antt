-- ===== src/Buffer/Queue.antt =====
-- src/buffer.rs: each operation, seen through the unread bytes that `peek` shows.
use librtmp.Buffer.{
  Buffer, available, peek, slice, make_room, append_bytes, write, read, drain, take_out, reset,
  release_excess, compact, buffer_max_size, buffer_initial_size, buffer_reset_capacity,
}
use librtmp.Buffer.Wf.{IsValid, length-peek, length-splice, slice-splice}
use librtmp.Buffer.Room.{Kept, Overflows, MadeRoom, make_room-MadeRoom, slice-drop, compact-Kept}
use librtmp.Common.{
  ℕ, ◌+◌, ◌-◌, ◌/◌, ◌≤◌, ◌<◌, min, max, ◌≡◌, refl, sym, ◌∙◌, ap, ◌⊎◌, inl, inr, not, ◌&&◌, ◌||◌,
  List, [], ◌∷◌, ◌++◌, arith, ltb, leb, length, take, drop, length-take, take-take, drop-drop,
  drop-take, drop_all, drop_none, append-nil, Bool-cases, ltb→le,
}
use librtmp.Common.Result.{Result, ok, err, ErrorCode}

-- What `write` did: it added the bytes behind the unread ones, or it kept those and failed.
abbrev pub Wrote : List ℕ → Buffer → Buffer × Result ℕ → Type 0
Wrote xs b (c, ok n) =
    IsValid c
    × (peek c ≡ peek b ++ xs)
    × (n ≡ length xs)
    × (c.owned ≡ b.owned)
    × ((xs ≡ []) ⊎ (available b + length xs ≤ buffer_max_size))
Wrote xs b (c, err e) = Kept b c × (e ≡ ErrorCode.internal) × Overflows (length xs) b

append_bytes_lem :
    (xs : List ℕ) (b : Buffer)
    → IsValid b
    → b.size + length xs ≤ length b.bytes
    → IsValid (append_bytes xs b) × (peek (append_bytes xs b) ≡ peek b ++ xs)
unfolding peek
append_bytes_lem xs b v h = (
  record { ordered = omega arith; within = omega (arith, length-splice b.bytes xs b.size h) },
  slice-splice b.bytes xs b.read_pos b.size v.ordered h,
)

write_after :
    (x : ℕ) (xs : List ℕ) (b : Buffer) (r : Buffer × Result (Unit {0}))
    → make_room (length (x ∷ xs)) b ≡ r
    → MadeRoom (length (x ∷ xs)) b r
    → Wrote (x ∷ xs) b (write (x ∷ xs) b)
unfolding write
write_after x xs b (c, ok u) e (kept, room, fits) =
    let (v, seen) = append_bytes_lem (x ∷ xs) c kept.valid room in
    rw e (v, seen ∙ ap (λ t. t ++ (x ∷ xs)) kept.unread, refl, kept.same_owned, inr fits)
write_after x xs b (c, err k) e made = rw e made

-- On a well-formed buffer `write` appends to the unread bytes; it fails, with `Internal` and the
-- unread bytes kept, only if they would pass the largest size or a fixed buffer's capacity.
pub write-Wrote : (xs : List ℕ) (b : Buffer) → IsValid b → Wrote xs b (write xs b)
write-Wrote [] b v = unfold write in (v, sym (append-nil _), refl, refl, inl refl)
write-Wrote (x ∷ xs) b v =
    write_after x xs b (make_room (length (x ∷ xs)) b) refl
      (make_room-MadeRoom (length (x ∷ xs)) b v)

-- What `read` did: it took `n` bytes off the front, or there were fewer and nothing changed.
abbrev pub ReadOut : ℕ → Buffer → Buffer × Result (List ℕ) → Type 0
ReadOut n b (c, ok xs) =
    (n ≤ available b)
    × IsValid c
    × (xs ≡ take n (peek b))
    × (peek c ≡ drop n (peek b))
    × (c.owned ≡ b.owned)
ReadOut n b (c, err e) = (available b < n) × (c ≡ b) × (e ≡ ErrorCode.io)

slice_from :
    (xs : List ℕ) (i n j : ℕ)
    → i + n ≤ j
    → (slice xs i (i + n) ≡ take n (slice xs i j)) × (slice xs (i + n) j ≡ drop n (slice xs i j))
slice_from xs i n j h =
    let e : i + n - i ≡ n = omega arith in
    let k : j - (i + n) ≡ j - i - n = omega arith in
    (
      rw e (sym (take-take n (j - i) (drop i xs) (omega arith))),
      rw k (sym (drop-take n (j - i) (drop i xs) ∙ ap (take (j - i - n)) (drop-drop n i xs))),
    )

-- On a well-formed buffer `read` takes the bytes from the front; if there are fewer it fails with `Io`
-- and changes nothing.
pub read-ReadOut : (n : ℕ) (b : Buffer) → IsValid b → ReadOut n b (read n b)
unfolding read available peek
read-ReadOut n b v = elim (Bool-cases (ltb b.size (b.read_pos + n))) [
  | inl short ↦ rw short (ground arith, refl, refl)
  | inr enough ↦
      let h : b.read_pos + n ≤ b.size = ltb→le b.size (b.read_pos + n) enough in
      let (front, back) = slice_from b.bytes b.read_pos n b.size h in
      rw enough (omega arith, record { ordered = h; within = v.within }, front, back, refl)
]

-- `drain` skips `n` bytes, or all that are unread.
pub drain_lem :
    (n : ℕ) (b : Buffer)
    → IsValid b
    → IsValid (drain n b) × (peek (drain n b) ≡ drop n (peek b)) × ((drain n b).owned ≡ b.owned)
unfolding drain available
drain_lem n b v =
    let m : ℕ = min n (available b) in
    let (_, back) = slice_from b.bytes b.read_pos m b.size (omega arith) in
    (
      record { ordered = omega arith; within = v.within },
      unfold peek in
          (back ∙ ground (arith, drop_all m (peek b), drop_all n (peek b), length-peek b v)),
      refl,
    )

-- `take` hands out the unread bytes and leaves none.
pub take_out_lem :
    (b : Buffer)
    → IsValid b
    → IsValid (take_out b).0
      × (peek (take_out b).0 ≡ [])
      × ((take_out b).1 ≡ peek b)
      × ((take_out b).0.owned ≡ b.owned)
unfolding take_out peek
take_out_lem b v = (
  record { ordered = omega arith; within = omega arith },
  refl,
  ground (
    arith,
    slice-drop b.bytes b.read_pos b.size,
    length-take b.size b.bytes,
    drop_none b.read_pos (take b.size b.bytes),
  ),
  refl,
)

-- A buffer with both cursors at the front.
emptied :
    (xs : List ℕ) (b : Buffer)
    → IsValid (record b { bytes = xs; size = 0; read_pos = 0 })
      × (peek (record b { bytes = xs; size = 0; read_pos = 0 }) ≡ [])
unfolding peek
emptied xs b = (record { ordered = omega arith; within = omega arith }, refl)

pub reset_lem :
    (b : Buffer)
    → IsValid b
    → IsValid (reset b) × (peek (reset b) ≡ []) × ((reset b).owned ≡ b.owned)
unfolding reset
reset_lem b v = elim (Bool-cases (b.owned && ltb buffer_reset_capacity (length b.bytes))) [
  | inl big ↦ let (w, e) = emptied (take buffer_reset_capacity b.bytes) b in rw big (w, e, refl)
  | inr small ↦ let (w, e) = emptied b.bytes b in rw small (w, e, refl)
]

-- Storage past the write cursor may be cut.
cut_lem :
    (k : ℕ) (b : Buffer)
    → IsValid b
    → b.size ≤ k
    → IsValid (record b { bytes = take k b.bytes })
      × (peek (record b { bytes = take k b.bytes }) ≡ peek b)
unfolding peek
cut_lem k b v h = (
  record { ordered = v.ordered; within = omega (arith, v.within, length-take k b.bytes) },
  slice-drop (take k b.bytes) b.read_pos b.size
      ∙ ap (drop b.read_pos) (take-take b.size k b.bytes h)
      ∙ sym (slice-drop b.bytes b.read_pos b.size),
)

-- `release_excess` loses no unread byte.
pub release_excess_lem :
    (keep : ℕ) (b : Buffer)
    → IsValid b
    → IsValid (release_excess keep b)
      × (peek (release_excess keep b) ≡ peek b)
      × ((release_excess keep b).owned ≡ b.owned)
unfolding release_excess
release_excess_lem keep b v =
    let kept = compact-Kept b v in
    elim (Bool-cases (not b.owned || leb (length b.bytes) keep || ltb (keep / 2) (available b))) [
      | inl same ↦ rw same (v, refl, refl)
      | inr shrink ↦
          let c = compact b in
          let (w, e) = cut_lem (max c.size buffer_initial_size) c kept.valid (omega arith) in
          rw shrink (w, e ∙ kept.unread, kept.same_owned)
    ]
