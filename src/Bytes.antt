-- ===== src/Bytes.antt =====
-- src/bytes.rs: byte order. A word is a number below its modulus and a byte one below 256, so that
-- `x >> 8` is `x / 256`, `x & 0xFF` is `x % 256`, and `|` of parts with no bit in common is `+`.
pub mod Order
pub mod Decide
use librtmp.Common.{
  ℕ, zero, suc, ◌+◌, ◌*◌, ◌/◌, ◌%◌, ◌^◌, ◌<◌, Bool, true, false, ◌&&◌, ◌==◌, List, [], ◌∷◌,
  if◌then◌else◌, get_or,
}

abbrev pub IsByte : ℕ → Type 0
IsByte b = b < 256

-- `buf[i]`, for an index in range.
abbrev pub at : List ℕ → ℕ → ℕ
at buf i = get_or buf i 0

-- `u16::to_be_bytes`, `u32::to_be_bytes`, `u32::to_le_bytes`, `u64::to_be_bytes`
abbrev pub to_be16 : ℕ → List ℕ
to_be16 v = (v / 2 ^ 8 % 256) ∷ (v % 256) ∷ []

abbrev pub to_be32 : ℕ → List ℕ
to_be32 v = (v / 2 ^ 24 % 256) ∷ (v / 2 ^ 16 % 256) ∷ (v / 2 ^ 8 % 256) ∷ (v % 256) ∷ []

abbrev pub to_le32 : ℕ → List ℕ
to_le32 v = (v % 256) ∷ (v / 2 ^ 8 % 256) ∷ (v / 2 ^ 16 % 256) ∷ (v / 2 ^ 24 % 256) ∷ []

abbrev pub to_be64 : ℕ → List ℕ
to_be64 v =
    (v / 2 ^ 56 % 256)
    ∷ (v / 2 ^ 48 % 256)
    ∷ (v / 2 ^ 40 % 256)
    ∷ (v / 2 ^ 32 % 256)
    ∷ (v / 2 ^ 24 % 256)
    ∷ (v / 2 ^ 16 % 256)
    ∷ (v / 2 ^ 8 % 256)
    ∷ (v % 256)
    ∷ []

unfoldable pub byteswap16 : ℕ → ℕ
byteswap16 val = val % 256 * 2 ^ 8 + val / 2 ^ 8

unfoldable pub byteswap32 : ℕ → ℕ
byteswap32 val =
    val % 256 * 2 ^ 24 + val / 2 ^ 8 % 256 * 2 ^ 16 + val / 2 ^ 16 % 256 * 2 ^ 8 + val / 2 ^ 24

unfoldable pub byteswap64 : ℕ → ℕ
byteswap64 val =
    val % 256 * 2 ^ 56
    + val / 2 ^ 8 % 256 * 2 ^ 48
    + val / 2 ^ 16 % 256 * 2 ^ 40
    + val / 2 ^ 24 % 256 * 2 ^ 32
    + val / 2 ^ 32 % 256 * 2 ^ 24
    + val / 2 ^ 40 % 256 * 2 ^ 16
    + val / 2 ^ 48 % 256 * 2 ^ 8
    + val / 2 ^ 56

unfoldable pub ntoh24 : List ℕ → ℕ
ntoh24 buf = at buf 0 * 2 ^ 16 + at buf 1 * 2 ^ 8 + at buf 2

-- The three bytes that are stored.
unfoldable pub hton24 : ℕ → List ℕ
hton24 val = (val / 2 ^ 16 % 256) ∷ (val / 2 ^ 8 % 256) ∷ (val % 256) ∷ []

unfoldable pub ntoh32 : List ℕ → ℕ
ntoh32 buf = at buf 0 * 2 ^ 24 + at buf 1 * 2 ^ 16 + at buf 2 * 2 ^ 8 + at buf 3

unfoldable pub ntoh16 : List ℕ → ℕ
ntoh16 buf = at buf 0 * 2 ^ 8 + at buf 1

-- `val.to_be()` on a host of either byte order.
unfoldable pub hton32 : Bool → ℕ → ℕ
unfolding byteswap32
hton32 big_endian val = if big_endian then val else byteswap32 val

unfoldable pub hton16 : Bool → ℕ → ℕ
unfolding byteswap16
hton16 big_endian val = if big_endian then val else byteswap16 val

-- `==` on byte arrays.
abbrev pub bytes_eq : List ℕ → List ℕ → Bool
bytes_eq [] [] = true
bytes_eq [] (y ∷ ys) = false
bytes_eq (x ∷ xs) [] = false
bytes_eq (x ∷ xs) (y ∷ ys) = x == y && bytes_eq xs ys
