-- ===== src/Buffer/Room.antt =====
-- src/buffer.rs: making room for a write keeps the unread bytes.
use librtmp.Buffer.{
  Buffer, available, space, peek, slice, ensure_capacity, compact, rewind, make_room_at, make_room,
  buffer_max_size,
}
use librtmp.Common.{
  ℕ, ◌+◌, ◌-◌, ◌≤◌, ◌<◌, ◌≡◌, refl, sym, ◌∙◌, ap, ◌⊎◌, inl, inr, false, ◌||◌, List, arith, ltb, leb,
  length, take, drop, drop-take, take-take, Bool-cases,
}
use librtmp.Common.Result.{Result, ok, err, ErrorCode}
use librtmp.Buffer.Wf.{
  IsValid, compact-IsValid, peek-compact, compact_shape, rewind-IsValid, peek-rewind, rewind_shape,
  Grown, ensure_capacity_cases,
}

-- `c` holds the unread bytes of `b`, and is as well formed and as free to grow as `b`.
pub record Kept (b c : Buffer) : Type 0 where
  pub valid : IsValid c
  pub unread : peek c ≡ peek b
  pub same_owned : c.owned ≡ b.owned
  pub no_smaller : length b.bytes ≤ length c.bytes

pub slice-drop : (xs : List ℕ) (i j : ℕ) → slice xs i j ≡ drop i (take j xs)
slice-drop xs i j = sym (drop-take i j xs)

peek-Grown : (n : ℕ) (b c : Buffer) → IsValid b → Grown n b c → peek c ≡ peek b
unfolding peek
peek-Grown n b c v g =
    let e : take b.size c.bytes ≡ take b.size b.bytes =
      sym (take-take b.size (length b.bytes) c.bytes v.within) ∙ ap (take b.size) g.stored in
    rw (g.same_size, g.same_read_pos, slice-drop c.bytes b.read_pos b.size, e)
      (sym (slice-drop b.bytes b.read_pos b.size))

rewind-Kept : (b : Buffer) → IsValid b → Kept b (rewind b)
rewind-Kept b v =
    let (same, own, _) = rewind_shape b v in
    record {
      valid = rewind-IsValid b v;
      unread = peek-rewind b v;
      same_owned = own;
      no_smaller = omega (arith, ap length same);
    }

pub compact-Kept : (b : Buffer) → IsValid b → Kept b (compact b)
compact-Kept b v =
    let (len, own, _) = compact_shape b v in
    record {
      valid = compact-IsValid b v;
      unread = peek-compact b v;
      same_owned = own;
      no_smaller = omega arith;
    }

Kept-trans : (a b c : Buffer) → Kept a b → Kept b c → Kept a c
Kept-trans a b c h k = record {
  valid = k.valid;
  unread = k.unread ∙ h.unread;
  same_owned = k.same_owned ∙ h.same_owned;
  no_smaller = omega arith;
}

Grown-Kept : (n : ℕ) (b c : Buffer) → IsValid b → Grown n b c → Kept b c
Grown-Kept n b c v g = record {
  valid = record { ordered = omega arith; within = omega arith };
  unread = peek-Grown n b c v g;
  same_owned = g.same_owned;
  no_smaller = g.longer;
}

-- The unread bytes and `n` more would pass the largest size, or do not fit a fixed buffer.
abbrev pub Overflows : ℕ → Buffer → Type 0
Overflows n b =
    (buffer_max_size < available b + n) ⊎ ((b.owned ≡ false) × (length b.bytes < available b + n))

-- What `make_room` did: there is room behind the write cursor, or it failed for want of it.
abbrev pub MadeRoom : ℕ → Buffer → Buffer × Result (Unit {0}) → Type 0
MadeRoom n b (c, ok _) =
    Kept b c × (c.size + n ≤ length c.bytes) × (available b + n ≤ buffer_max_size)
MadeRoom n b (c, err e) = Kept b c × (e ≡ ErrorCode.internal) × Overflows n b

compacted_room :
    (n : ℕ) (b : Buffer)
    → IsValid b
    → available b + n ≤ buffer_max_size
    → MadeRoom n b (ensure_capacity ((compact b).size + n) (compact b))
compacted_room n b v h =
    let k = compact-Kept b v in
    let (len, own, sz) = compact_shape b v in
    elim (ensure_capacity_cases ((compact b).size + n) (compact b)) [
      | inl (c, e, g) ↦
          rw e (
            Kept-trans b (compact b) c k (Grown-Kept _ (compact b) c k.valid g),
            omega (arith, g),
            h,
          )
      | inr (e, short, inl fixed) ↦
          rw e (k, refl, inr (sym own ∙ fixed, omega (arith, len, sz, short)))
      | inr (e, short, inr big) ↦ absurd (omega (arith, sz, big))
    ]

Kept-refl : (b : Buffer) → IsValid b → Kept b b
Kept-refl b v = record { valid = v; unread = refl; same_owned = refl; no_smaller = omega arith }

make_room_at-MadeRoom : (n : ℕ) (b : Buffer) → IsValid b → MadeRoom n b (make_room_at n b)
unfolding make_room_at
make_room_at-MadeRoom n b v =
    elim (Bool-cases (ltb buffer_max_size n || ltb (buffer_max_size - n) (available b))) [
      | inl full ↦ rw full (Kept-refl b v, refl, inl (ground arith))
      | inr below ↦ elim (Bool-cases (leb n (space b))) [
        | inl fits ↦ rw (below, fits) (Kept-refl b v, unfold space in ground arith, ground arith)
        | inr tight ↦ rw (below, tight) (compacted_room n b v (ground arith))
      ]
    ]

-- The result for a buffer is the result for any that keeps its bytes.
MadeRoom-Kept :
    (n : ℕ) (b c : Buffer) (r : Buffer × Result (Unit {0}))
    → IsValid b
    → Kept b c
    → available c ≡ available b
    → length c.bytes ≡ length b.bytes
    → MadeRoom n c r
    → MadeRoom n b r
MadeRoom-Kept n b c (d, ok u) v k ea el (kept, room, fits) =
    (Kept-trans b c d k kept, room, omega arith)
MadeRoom-Kept n b c (d, err e) v k ea el (kept, code, inl big) =
    (Kept-trans b c d k kept, code, inl (omega arith))
MadeRoom-Kept n b c (d, err e) v k ea el (kept, code, inr (fixed, short)) =
    (Kept-trans b c d k kept, code, inr (sym k.same_owned ∙ fixed, omega arith))

-- On a well-formed buffer `make_room` keeps the unread bytes, and either makes room for `n` bytes
-- behind the write cursor or fails with `Internal` because they would pass the largest size or a
-- fixed buffer's capacity.
pub make_room-MadeRoom : (n : ℕ) (b : Buffer) → IsValid b → MadeRoom n b (make_room n b)
unfolding make_room
make_room-MadeRoom n b v =
    let (same, own, unread) = rewind_shape b v in
    MadeRoom-Kept n b (rewind b) (make_room_at n (rewind b)) v (rewind-Kept b v) unread
      (ap length same) (make_room_at-MadeRoom n (rewind b) (rewind-IsValid b v))
