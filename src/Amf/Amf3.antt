-- ===== src/Amf/Amf3.antt =====
-- src/amf/amf3.rs: the AMF3 values that the library reads and writes. A double is its 64 bits.
pub mod RoundTrip
mod Tests
use librtmp.Common.{
  ℕ, zero, suc, ◌+◌, ◌*◌, ◌/◌, ◌%◌, ◌^◌, Bool, true, false, not, ◌||◌, List, [], ◌∷◌, ltb, leb,
  ◌==◌, if◌then◌else◌, length, set,
}
use librtmp.Common.Result.{ErrorCode, M, ◌>>=◌, ◌>>◌, map_err, pure, fail, fail_if}
use librtmp.Bytes.{at, to_be64}
use librtmp.Buffer.{Buffer, read, splice}
use librtmp.Buffer.Codec.{put}
use librtmp.Amf.Amf0.Read.{read_u8}

-- The markers that are used.
abbrev pub amf3_null : ℕ
amf3_null = 0x01

abbrev pub amf3_false : ℕ
amf3_false = 0x02

abbrev pub amf3_true : ℕ
amf3_true = 0x03

abbrev pub amf3_integer : ℕ
amf3_integer = 0x04

abbrev pub amf3_double : ℕ
amf3_double = 0x05

abbrev pub amf3_string : ℕ
amf3_string = 0x06

-- The `for i in 0..4`: `n` bytes of seven bits may follow before the last one of eight.
unfoldable pub read_u29_from : ℕ → ℕ → M Buffer ℕ
read_u29_from zero result = do b ← read_u8; pure (result * 2 ^ 8 + b)
read_u29_from (suc n) result = do
  b ← read_u8
  let next = result * 2 ^ 7 + b % 2 ^ 7
  let more = read_u29_from n next
  if b / 2 ^ 7 % 2 == 0 then pure next else more

unfoldable pub read_u29 : M Buffer ℕ
unfolding read_u29_from
read_u29 = read_u29_from 3 0

-- The bytes of a number, one to four.
unfoldable pub u29_bytes : ℕ → List ℕ
u29_bytes val =
    let v = val % 2 ^ 29 in
    if ltb v 0x80
    then v ∷ []
    else if ltb v 0x4000
    then (v / 2 ^ 7 + 2 ^ 7) ∷ (v % 2 ^ 7) ∷ []
    else if ltb v 0x200000
    then (v / 2 ^ 14 + 2 ^ 7) ∷ (v / 2 ^ 7 % 2 ^ 7 + 2 ^ 7) ∷ (v % 2 ^ 7) ∷ []
    else (v / 2 ^ 22 + 2 ^ 7)
      ∷ (v / 2 ^ 15 % 2 ^ 7 + 2 ^ 7)
      ∷ (v / 2 ^ 8 % 2 ^ 7 + 2 ^ 7)
      ∷ (v % 2 ^ 8)
      ∷ []

unfoldable pub write_u29 : ℕ → M Buffer (Unit {0})
write_u29 val = put (u29_bytes val)

unfoldable pub read_double_raw : M Buffer ℕ
read_double_raw = do
  b ← map_err ErrorCode.io (read 8)
  pure (
      at b 0 * 2 ^ 56
      + at b 1 * 2 ^ 48
      + at b 2 * 2 ^ 40
      + at b 3 * 2 ^ 32
      + at b 4 * 2 ^ 24
      + at b 5 * 2 ^ 16
      + at b 6 * 2 ^ 8
      + at b 7)

unfoldable pub read_double : M Buffer ℕ
read_double = read_double_raw

unfoldable pub read_type : M Buffer ℕ
read_type = read_u8

unfoldable pub read_null : M Buffer (Unit {0})
read_null = do t ← read_u8; fail_if (not (t == amf3_null)) ErrorCode.amf

unfoldable pub read_integer : M Buffer ℕ
read_integer = read_u29

unfoldable pub read_boolean : M Buffer Bool
read_boolean = do
  t ← read_u8
  if t == amf3_true then pure true else if t == amf3_false then pure false else fail ErrorCode.amf

unfoldable pub write_null : M Buffer (Unit {0})
write_null = put (amf3_null ∷ [])

unfoldable pub write_integer : ℕ → M Buffer (Unit {0})
write_integer val = do put (amf3_integer ∷ []); write_u29 val

unfoldable pub write_double : ℕ → M Buffer (Unit {0})
write_double bits = do put (amf3_double ∷ []); put (to_be64 bits)

-- The string is stored in `out`, with a closing 0.
unfoldable pub read_string : List ℕ → M Buffer (ℕ × List ℕ)
read_string out = do
  t ← read_u8
  fail_if (not (t == amf3_string)) ErrorCode.amf
  ref_val ← read_u29
  let len = ref_val / 2
  fail_if (ref_val % 2 == 0) ErrorCode.unsupported
  fail_if (length out == 0 || leb (length out) len) ErrorCode.amf
  bytes ← map_err ErrorCode.io (read len)
  pure (len, set (splice out 0 bytes) len 0)

unfoldable pub write_string : List ℕ → M Buffer (Unit {0})
write_string s = do
  fail_if (ltb 0x0FFFFFFF (length s)) ErrorCode.amf
  put (amf3_string ∷ [])
  write_u29 (length s * 2 + 1)
  put s
