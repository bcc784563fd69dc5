-- ===== src/Handshake/Random.antt =====
-- src/handshake.rs: the generator that fills the random part of a handshake.
use librtmp.Common.{
  ℕ, zero, suc, ◌+◌, ◌-◌, ◌*◌, ◌/◌, ◌%◌, ◌^◌, ◌≤◌, ◌≡◌, List, [], ◌∷◌, ◌++◌, arith, length, take,
  length-append, length-take,
}
use Prim.Native.Nat.{bit_xor}

-- The system's clock and the counter, when `fill_random` is called.
pub record Moment : Type 0 where
  pub secs : ℕ
  pub nanos : ℕ
  pub counter : ℕ

-- The new state and the number.
unfoldable pub splitmix64 : ℕ → ℕ × ℕ
splitmix64 state =
    let s = (state + 0x9E3779B97F4A7C15) % 2 ^ 64 in
    let z1 = bit_xor s (s / 2 ^ 30) * 0xBF58476D1CE4E5B9 % 2 ^ 64 in
    let z2 = bit_xor z1 (z1 / 2 ^ 27) * 0x94D049BB133111EB % 2 ^ 64 in (s, bit_xor z2 (z2 / 2 ^ 31))

-- The eight bytes of a number, the low one first.
abbrev low_first : ℕ → List ℕ
low_first r =
    (r % 256)
    ∷ (r / 2 ^ 8 % 256)
    ∷ (r / 2 ^ 16 % 256)
    ∷ (r / 2 ^ 24 % 256)
    ∷ (r / 2 ^ 32 % 256)
    ∷ (r / 2 ^ 40 % 256)
    ∷ (r / 2 ^ 48 % 256)
    ∷ (r / 2 ^ 56 % 256)
    ∷ []

-- The `while` loop for the `n` bytes that are left. A round fills a byte at least, so `n` rounds do.
unfoldable pub fill_from : ℕ → ℕ → ℕ → List ℕ
unfolding splitmix64
fill_from zero n state = []
fill_from (suc fuel) n state =
    let (next, r) = splitmix64 state in take n (low_first r) ++ fill_from fuel (n - 8) next

unfoldable pub fill_random : Moment → ℕ → List ℕ
unfolding fill_from
fill_random m n = fill_from n n (
    bit_xor
      (bit_xor (bit_xor m.secs (m.nanos * 2 ^ 32 % 2 ^ 64))
        (m.counter * 0xD1B54A32D192ED03 % 2 ^ 64))
      n)

length-fill_from : (fuel n state : ℕ) → n ≤ fuel → length (fill_from fuel n state) ≡ n
unfolding fill_from
length-fill_from zero n state h = omega arith
length-fill_from (suc fuel) n state h = omega (
  arith,
  length-append (take n (low_first (splitmix64 state).1))
      (fill_from fuel (n - 8) (splitmix64 state).0),
  length-take n (low_first (splitmix64 state).1),
  length-fill_from fuel (n - 8) (splitmix64 state).0 (omega arith),
)

pub length-fill_random : (m : Moment) (n : ℕ) → length (fill_random m n) ≡ n
unfolding fill_random
length-fill_random m n = length-fill_from n n _ (omega arith)
