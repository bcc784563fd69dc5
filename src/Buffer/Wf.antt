-- ===== src/Buffer/Wf.antt =====
-- src/buffer.rs: the cursors stay in order, the unread bytes survive every reorganisation, and
-- there is room where `write` copies.
use librtmp.Buffer.{
  Buffer, available, peek, slice, splice, grow, grow_fuel, resize, saturating_mul, ensure_capacity,
  compact, rewind, buffer_max_size, buffer_initial_size, buffer_grow_factor,
}
use librtmp.Common.{
  ℕ, zero, suc, ◌+◌, ◌-◌, ◌*◌, ◌^◌, ◌≤◌, ◌<◌, max, ◌≡◌, refl, ◌∙◌, ap, ◌⊎◌, inl, inr, false, List,
  ◌++◌, arith, ltb, leb, length, take, drop, replicate, length-append, length-take, length-drop,
  length-replicate, take-append, take-append_add, drop-append_le, drop-take, take_all, take_none,
  leb→lt, ltb→le, Bool-cases,
}
use native.Mathlib.Nat.{pow-suc}
use librtmp.Common.Result.{ok, err, ErrorCode}

-- No cursor is past the one behind it.
pub record IsValid (b : Buffer) : Type 0 where
  pub ordered : b.read_pos ≤ b.size
  pub within : b.size ≤ length b.bytes

pub length-slice : (xs : List ℕ) (i j : ℕ) → i ≤ j → j ≤ length xs → length (slice xs i j) ≡ j - i
length-slice xs i j h k = omega (arith, length-take (j - i) (drop i xs), length-drop i xs)

pub length-peek : (b : Buffer) → IsValid b → length (peek b) ≡ available b
unfolding peek available
length-peek b v = length-slice b.bytes b.read_pos b.size v.ordered v.within

pub length-splice :
    (xs ys : List ℕ) (i : ℕ) → i + length ys ≤ length xs → length (splice xs i ys) ≡ length xs
length-splice xs ys i h = omega (
  arith,
  length-append (take i xs) (ys ++ drop (i + length ys) xs),
  length-append ys (drop (i + length ys) xs),
  length-take i xs,
  length-drop (i + length ys) xs,
)

-- What is copied in behind a slice extends it.
pub slice-splice :
    (xs ys : List ℕ) (i j : ℕ)
    → i ≤ j
    → j + length ys ≤ length xs
    → slice (splice xs j ys) i (j + length ys) ≡ slice xs i j ++ ys
slice-splice xs ys i j h k =
    let front : drop i (splice xs j ys) ≡ slice xs i j ++ (ys ++ drop (j + length ys) xs) =
      drop-append_le i (take j xs) _ (omega (arith, length-take j xs))
      ∙ ap (λ t. t ++ (ys ++ drop (j + length ys) xs)) (drop-take i j xs) in
    let e : j + length ys - i ≡ (j - i) + length ys = omega arith in
    rw (front, e)
      (take-append_add (j - i) (length ys) (slice xs i j) _ (length-slice xs i j h (omega arith))
        ∙ ap (◌++◌ (slice xs i j)) (take-append (length ys) ys _ refl))

pub compact-IsValid : (b : Buffer) → IsValid b → IsValid (compact b)
unfolding compact
compact-IsValid b v = ground (
  arith,
  length-splice b.bytes (slice b.bytes b.read_pos b.size) 0,
  length-slice b.bytes b.read_pos b.size v.ordered v.within,
)

pub peek-compact : (b : Buffer) → IsValid b → peek (compact b) ≡ peek b
unfolding compact peek
peek-compact b v = ground (
  arith,
  take_none (b.size - b.read_pos) (drop b.read_pos b.bytes),
  take-append (b.size - b.read_pos) (slice b.bytes b.read_pos b.size)
      (drop (0 + length (slice b.bytes b.read_pos b.size)) b.bytes),
  length-slice b.bytes b.read_pos b.size v.ordered v.within,
)

pub compact_shape :
    (b : Buffer)
    → IsValid b
    → (length (compact b).bytes ≡ length b.bytes)
      × ((compact b).owned ≡ b.owned)
      × ((compact b).size ≡ available b)
unfolding compact available
compact_shape b v = ground (
  arith,
  length-splice b.bytes (slice b.bytes b.read_pos b.size) 0,
  length-slice b.bytes b.read_pos b.size v.ordered v.within,
)

pub rewind-IsValid : (b : Buffer) → IsValid b → IsValid (rewind b)
unfolding rewind
rewind-IsValid b v = ground arith

pub peek-rewind : (b : Buffer) → IsValid b → peek (rewind b) ≡ peek b
unfolding rewind peek
peek-rewind b v = ground (arith, take_none (b.size - b.read_pos) (drop b.read_pos b.bytes))

pub rewind_shape :
    (b : Buffer)
    → IsValid b
    → ((rewind b).bytes ≡ b.bytes)
      × ((rewind b).owned ≡ b.owned)
      × (available (rewind b) ≡ available b)
unfolding rewind available
rewind_shape b v = ground arith

saturating_mul_small :
    (cap : ℕ) → cap ≤ buffer_max_size → saturating_mul cap buffer_grow_factor ≡ cap * 2
saturating_mul_small cap h = omega arith

double_pow : (cap fuel : ℕ) → cap * 2 ^ suc fuel ≡ cap * 2 * 2 ^ fuel
double_pow cap fuel = simp pow-suc (omega arith)

-- With `fuel` doublings left the loop reaches `needed`, and it stays within the largest size.
grow_bounds :
    (fuel needed cap : ℕ)
    → needed ≤ buffer_max_size
    → buffer_max_size ≤ cap * 2 ^ fuel
    → cap ≤ buffer_max_size
    → (needed ≤ grow fuel needed cap)
      × (cap ≤ grow fuel needed cap)
      × (grow fuel needed cap ≤ buffer_max_size)
unfolding grow
grow_bounds zero needed cap h k l = (omega arith, omega arith, omega arith)
grow_bounds (suc fuel) needed cap h k l =
    rw (saturating_mul_small cap l)
      (ground (arith, double_pow cap fuel, grow_bounds fuel needed (cap * 2) h))

-- `c` is `b` with room for `n` bytes in all, and with everything that `b` stores.
pub record Grown (n : ℕ) (b c : Buffer) : Type 0 where
  pub roomy : n ≤ length c.bytes
  pub longer : length b.bytes ≤ length c.bytes
  pub same_size : c.size ≡ b.size
  pub same_read_pos : c.read_pos ≡ b.read_pos
  pub same_owned : c.owned ≡ b.owned
  pub stored : take (length b.bytes) c.bytes ≡ b.bytes

resize_shape :
    (xs : List ℕ) (n : ℕ)
    → length xs ≤ n
    → (length (resize xs n) ≡ n) × (take (length xs) (resize xs n) ≡ xs)
resize_shape xs n h =
    let e : take n xs ≡ xs = take_all n xs h in
    rw e (
      omega (
        arith,
        length-append xs (replicate (n - length xs) 0),
        length-replicate {0} {A = ℕ} (n - length xs) 0,
      ),
      take-append (length xs) xs _ refl,
    )

grown_cap : ℕ → Buffer → ℕ
grown_cap n b = grow grow_fuel n (max (length b.bytes) buffer_initial_size)

grown_cap_bounds :
    (n : ℕ) (b : Buffer)
    → length b.bytes < n
    → n ≤ buffer_max_size
    → (n ≤ grown_cap n b) × (length b.bytes ≤ grown_cap n b)
unfolding grown_cap
grown_cap_bounds n b h k = omega (
  arith,
  grow_bounds grow_fuel n (max (length b.bytes) buffer_initial_size) k (omega arith) (omega arith),
)

grown_buffer : ℕ → Buffer → Buffer
grown_buffer n b = record b { bytes = resize b.bytes (grown_cap n b) }

grown_buffer-Grown :
    (n : ℕ) (b : Buffer) → length b.bytes < n → n ≤ buffer_max_size → Grown n b (grown_buffer n b)
unfolding grown_buffer
grown_buffer-Grown n b h k =
    let (lo, hi) = grown_cap_bounds n b h k in
    let (len, kept) = resize_shape b.bytes (grown_cap n b) hi in
    record {
      roomy = omega (arith, len);
      longer = omega (arith, len);
      same_size = refl;
      same_read_pos = refl;
      same_owned = refl;
      stored = kept;
    }

-- Growing succeeds, or the buffer is fixed or would pass the largest size; then it is unchanged.
pub ensure_capacity_cases :
    (n : ℕ) (b : Buffer)
    → ((c : Buffer) × (ensure_capacity n b ≡ (c, ok tt)) × Grown n b c)
      ⊎ ((ensure_capacity n b ≡ (b, err ErrorCode.internal))
          × (length b.bytes < n)
          × ((b.owned ≡ false) ⊎ (buffer_max_size < n)))
unfolding ensure_capacity grown_buffer grown_cap
ensure_capacity_cases n b = elim (Bool-cases (leb n (length b.bytes))) [
  | inl fits ↦ inl (
    b,
    ground arith,
    record {
      roomy = ground arith;
      longer = omega arith;
      same_size = refl;
      same_read_pos = refl;
      same_owned = refl;
      stored = take_all _ _ (omega arith);
    },
  )
  | inr short ↦ elim (Bool-cases b.owned) [
    | inr fixed ↦ inr (ground arith, ground arith, inl fixed)
    | inl free ↦ elim (Bool-cases (ltb buffer_max_size n)) [
      | inl big ↦ inr (ground arith, ground arith, inr (ground arith))
      | inr small ↦ inl (
        grown_buffer n b,
        ground arith,
        grown_buffer-Grown n b (leb→lt n (length b.bytes) short) (ltb→le buffer_max_size n small),
      )
    ]
  ]
]
