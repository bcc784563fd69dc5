-- ===== src/Bytes/Order.antt =====
-- src/bytes.rs: what is written in network order is read back, on a host of either byte order.
use librtmp.Common.{ℕ, ◌^◌, ◌<◌, ◌≡◌, Bool, true, false, List, [], ◌∷◌, ◌++◌, arith, if◌then◌else◌}
use librtmp.Bytes.{
  IsByte, to_be16, to_be32, to_le32, byteswap16, byteswap32, ntoh16, ntoh24, ntoh32, hton24, hton32,
}

-- `u32::to_ne_bytes`, `u16::to_ne_bytes`
pub to_ne32 : Bool → ℕ → List ℕ
to_ne32 big_endian v = if big_endian then to_be32 v else to_le32 v

-- `On a host of either byte order, a 32-bit number that `hton32` has turned and the host has stored is
-- the number that `ntoh32` reads, whatever follows it.
pub ntoh32-hton32 :
    (big_endian : Bool) (v : ℕ) (rest : List ℕ)
    → v < 2 ^ 32
    → ntoh32 (to_ne32 big_endian (hton32 big_endian v) ++ rest) ≡ v
unfolding ntoh32 to_ne32 hton32
ntoh32-hton32 true v rest h = omega arith
ntoh32-hton32 false v rest h = omega arith

pub ntoh32-to_be32 : (v : ℕ) (rest : List ℕ) → v < 2 ^ 32 → ntoh32 (to_be32 v ++ rest) ≡ v
unfolding ntoh32
ntoh32-to_be32 v rest h = omega arith

pub ntoh16-to_be16 : (v : ℕ) (rest : List ℕ) → v < 2 ^ 16 → ntoh16 (to_be16 v ++ rest) ≡ v
unfolding ntoh16
ntoh16-to_be16 v rest h = omega arith

-- A number of 24 bits is read back as it was written, whatever follows it.
pub ntoh24-hton24 : (v : ℕ) (rest : List ℕ) → v < 2 ^ 24 → ntoh24 (hton24 v ++ rest) ≡ v
unfolding ntoh24 hton24
ntoh24-hton24 v rest h = omega arith

-- Three bytes are read back as they were written.
pub hton24-ntoh24 :
    (a b c : ℕ) → IsByte a → IsByte b → IsByte c → hton24 (ntoh24 (a ∷ b ∷ c ∷ [])) ≡ a ∷ b ∷ c ∷ []
unfolding ntoh24 hton24
hton24-ntoh24 a b c ha hb hc = ground arith

pub byteswap32-byteswap32 : (v : ℕ) → v < 2 ^ 32 → byteswap32 (byteswap32 v) ≡ v
unfolding byteswap32
byteswap32-byteswap32 v h = omega arith

pub byteswap16-byteswap16 : (v : ℕ) → v < 2 ^ 16 → byteswap16 (byteswap16 v) ≡ v
unfolding byteswap16
byteswap16-byteswap16 v h = omega arith
