-- ===== src/Sha256.antt =====
-- src/sha256.rs: SHA-256 and HMAC-SHA256. A word is a number below 2^32, a byte one below 256.
pub mod Length
mod Tests
use librtmp.Common.{
  ℕ, zero, suc, ◌+◌, ◌-◌, ◌*◌, ◌/◌, ◌%◌, ◌^◌, min, Bool, true, false, List, [], ◌∷◌, ◌++◌, ltb, leb,
  if◌then◌else◌, length, take, drop, replicate, get_or, map,
}
use librtmp.Bytes.{to_be32, to_be64, ntoh32}
use librtmp.Buffer.{splice}
use Prim.Native.Nat.{bit_and, bit_xor}

unfoldable pub round_constants : List ℕ
round_constants =
    0x428a2f98 ∷ 0x71374491 ∷ 0xb5c0fbcf ∷ 0xe9b5dba5 ∷ 0x3956c25b ∷ 0x59f111f1 ∷ 0x923f82a4
    ∷ 0xab1c5ed5 ∷ 0xd807aa98 ∷ 0x12835b01 ∷ 0x243185be ∷ 0x550c7dc3 ∷ 0x72be5d74 ∷ 0x80deb1fe
    ∷ 0x9bdc06a7 ∷ 0xc19bf174 ∷ 0xe49b69c1 ∷ 0xefbe4786 ∷ 0x0fc19dc6 ∷ 0x240ca1cc ∷ 0x2de92c6f
    ∷ 0x4a7484aa ∷ 0x5cb0a9dc ∷ 0x76f988da ∷ 0x983e5152 ∷ 0xa831c66d ∷ 0xb00327c8 ∷ 0xbf597fc7
    ∷ 0xc6e00bf3 ∷ 0xd5a79147 ∷ 0x06ca6351 ∷ 0x14292967 ∷ 0x27b70a85 ∷ 0x2e1b2138 ∷ 0x4d2c6dfc
    ∷ 0x53380d13 ∷ 0x650a7354 ∷ 0x766a0abb ∷ 0x81c2c92e ∷ 0x92722c85 ∷ 0xa2bfe8a1 ∷ 0xa81a664b
    ∷ 0xc24b8b70 ∷ 0xc76c51a3 ∷ 0xd192e819 ∷ 0xd6990624 ∷ 0xf40e3585 ∷ 0x106aa070 ∷ 0x19a4c116
    ∷ 0x1e376c08 ∷ 0x2748774c ∷ 0x34b0bcb5 ∷ 0x391c0cb3 ∷ 0x4ed8aa4a ∷ 0x5b9cca4f ∷ 0x682e6ff3
    ∷ 0x748f82ee ∷ 0x78a5636f ∷ 0x84c87814 ∷ 0x8cc70208 ∷ 0x90befffa ∷ 0xa4506ceb ∷ 0xbef9a3f7
    ∷ 0xc67178f2 ∷ []

-- The array of eight words.
pub record State : Type 0 where
  pub a : ℕ
  pub b : ℕ
  pub c : ℕ
  pub d : ℕ
  pub e : ℕ
  pub f : ℕ
  pub g : ℕ
  pub h : ℕ

unfoldable pub initial : State
initial = record {
  a = 0x6a09e667;
  b = 0xbb67ae85;
  c = 0x3c6ef372;
  d = 0xa54ff53a;
  e = 0x510e527f;
  f = 0x9b05688c;
  g = 0x1f83d9ab;
  h = 0x5be0cd19;
}

pub record Sha256 : Type 0 where
  pub state : State
  pub block : List ℕ
  pub block_len : ℕ
  pub total_len : ℕ

-- `Sha256::new`
unfoldable pub new : Sha256
unfolding initial
new = record { state = initial; block = replicate 64 0; block_len = 0; total_len = 0 }

-- `wrapping_add`, `rotate_right` and `!` on 32 bits.
abbrev pub add32 : ℕ → ℕ → ℕ
add32 a b = (a + b) % 2 ^ 32

abbrev pub rotate_right : ℕ → ℕ → ℕ
rotate_right x n = x / 2 ^ n + x % 2 ^ n * 2 ^ (32 - n)

abbrev pub not32 : ℕ → ℕ
not32 x = 2 ^ 32 - 1 - x

-- The first sixteen words of the schedule, `chunks_exact(4)` of the block.
unfoldable pub block_words : ℕ → List ℕ → List ℕ
unfolding ntoh32
block_words zero block = []
block_words (suc n) block = ntoh32 block ∷ block_words n (drop 4 block)

-- The word that follows the `i` words of `w`.
unfoldable pub next_word : List ℕ → ℕ → ℕ
next_word w i =
    let w15 = get_or w (i - 15) 0 in
    let w2 = get_or w (i - 2) 0 in
    let s0 = bit_xor (bit_xor (rotate_right w15 7) (rotate_right w15 18)) (w15 / 2 ^ 3) in
    let s1 = bit_xor (bit_xor (rotate_right w2 17) (rotate_right w2 19)) (w2 / 2 ^ 10) in
    add32 (add32 (add32 (get_or w (i - 16) 0) s0) (get_or w (i - 7) 0)) s1

-- The `for i in 16..64`.
unfoldable pub extend : ℕ → List ℕ → List ℕ
unfolding next_word
extend zero w = w
extend (suc n) w = extend n (w ++ (next_word w (length w) ∷ []))

-- One round.
unfoldable pub compress_round : ℕ → ℕ → State → State
compress_round k w s =
    let s1 = bit_xor (bit_xor (rotate_right s.e 6) (rotate_right s.e 11)) (rotate_right s.e 25) in
    let ch = bit_xor (bit_and s.e s.f) (bit_and (not32 s.e) s.g) in
    let t1 = add32 (add32 (add32 (add32 s.h s1) ch) k) w in
    let s0 = bit_xor (bit_xor (rotate_right s.a 2) (rotate_right s.a 13)) (rotate_right s.a 22) in
    let maj = bit_xor (bit_xor (bit_and s.a s.b) (bit_and s.a s.c)) (bit_and s.b s.c) in
    let t2 = add32 s0 maj in
    record {
      a = add32 t1 t2;
      b = s.a;
      c = s.b;
      d = s.c;
      e = add32 s.d t1;
      f = s.e;
      g = s.f;
      h = s.g;
    }

-- The rounds over the constants and the schedule.
unfoldable pub compress_rounds : List ℕ → List ℕ → State → State
unfolding compress_round
compress_rounds [] ws s = s
compress_rounds (k ∷ ks) [] s = s
compress_rounds (k ∷ ks) (w ∷ ws) s = compress_rounds ks ws (compress_round k w s)

unfoldable pub add_states : State → State → State
add_states s v = record {
  a = add32 s.a v.a;
  b = add32 s.b v.b;
  c = add32 s.c v.c;
  d = add32 s.d v.d;
  e = add32 s.e v.e;
  f = add32 s.f v.f;
  g = add32 s.g v.g;
  h = add32 s.h v.h;
}

unfoldable pub compress : List ℕ → State → State
unfolding round_constants block_words extend compress_rounds add_states
compress block s =
    add_states s (compress_rounds round_constants (extend 48 (block_words 16 block)) s)

-- The `chunks_exact(64)` loop and the remainder. A chunk takes bytes, so as many rounds as there are
-- bytes are enough.
unfoldable pub absorb : ℕ → List ℕ → Sha256 → Sha256
absorb zero bytes h = record h { block = splice h.block 0 bytes; block_len = length bytes }
absorb (suc fuel) bytes h =
    let more =
      absorb fuel (drop 64 bytes) (record h { state = compress (take 64 bytes) h.state }) in
    if ltb (length bytes) 64
    then record h { block = splice h.block 0 bytes; block_len = length bytes }
    else more

-- Behind the filling of a block that was begun.
unfoldable pub absorb_filled : List ℕ → Sha256 → Sha256
unfolding absorb
absorb_filled bytes h =
    if ltb h.block_len 64
    then h
    else absorb (length bytes) bytes (record h { state = compress h.block h.state; block_len = 0 })

unfoldable pub update : List ℕ → Sha256 → Sha256
unfolding absorb absorb_filled
update bytes h0 =
    let h = record h0 { total_len = (h0.total_len + length bytes) % 2 ^ 64 } in
    let n = min (64 - h.block_len) (length bytes) in
    if ltb 0 h.block_len
    then absorb_filled (drop n bytes) (record h {
      block = splice h.block h.block_len (take n bytes);
      block_len = h.block_len + n;
    })
    else absorb (length bytes) bytes h

unfoldable pub finalize : Sha256 → List ℕ
unfolding update
finalize h =
    let bit_len = h.total_len * 8 % 2 ^ 64 in
    let pad_len = if ltb h.block_len 56 then 56 - h.block_len else 120 - h.block_len in
    let padded = update (take pad_len (0x80 ∷ replicate 71 0)) h in
    let s = (update (to_be64 bit_len) padded).state in
    to_be32 s.a
    ++ (to_be32 s.b
        ++ (to_be32 s.c
            ++ (to_be32 s.d ++ (to_be32 s.e ++ (to_be32 s.f ++ (to_be32 s.g ++ to_be32 s.h))))))

-- The `for p in parts` loop.
unfoldable pub update_all : List (List ℕ) → Sha256 → Sha256
update_all [] h = h
update_all (p ∷ ps) h = update_all ps (update p h)

unfoldable pub sha256 : List (List ℕ) → List ℕ
unfolding update_all new
sha256 parts = finalize (update_all parts new)

-- The block that the key is made to fill.
unfoldable pub key_block : List ℕ → List ℕ
key_block key =
    if ltb 64 (length key)
    then splice (replicate 64 0) 0 (sha256 (key ∷ []))
    else splice (replicate 64 0) 0 key

unfoldable pub hmac_sha256 : List ℕ → List (List ℕ) → List ℕ
unfolding key_block update_all new
hmac_sha256 key parts =
    let k = key_block key in
    let inner = finalize (update_all parts (update (map (bit_xor 0x36) k) new)) in
    finalize (update inner (update (map (bit_xor 0x5c) k) new))
