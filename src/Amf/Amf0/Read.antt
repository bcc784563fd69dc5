-- ===== src/Amf/Amf0/Read.antt =====
-- src/amf/amf0.rs: the decoder. What `read_string` and its like store in `out` is part of their
-- result: the caller's bytes with the string and a closing 0 written over their front.
use librtmp.Common.{
  ℕ, ◌+◌, ◌*◌, ◌^◌, Bool, false, not, ◌&&◌, ◌||◌, Option, none, some, List, ◌∷◌, leb, ◌==◌, length,
  set,
}
use librtmp.Common.Result.{ErrorCode, M, ◌>>=◌, ◌>>◌, map_err, pure, fail, fail_if}
use librtmp.Bytes.{at}
use librtmp.Buffer.{Buffer, read, peek, splice}
use librtmp.Amf.Amf0.Marker.{Amf0Type, marker, of_marker, string, long_string, object}
use librtmp.Amf.Amf0.Utf8.{from_utf8}

unfoldable pub read_u8 : M Buffer ℕ
read_u8 = do val ← map_err ErrorCode.io (read 1); pure (at val 0)

unfoldable pub read_u16 : M Buffer ℕ
read_u16 = do b ← map_err ErrorCode.io (read 2); pure (at b 0 * 2 ^ 8 + at b 1)

unfoldable pub read_u32 : M Buffer ℕ
read_u32 = do
  b ← map_err ErrorCode.io (read 4)
  pure (at b 0 * 2 ^ 24 + at b 1 * 2 ^ 16 + at b 2 * 2 ^ 8 + at b 3)

unfoldable pub read_double : M Buffer ℕ
read_double = do
  b ← map_err ErrorCode.io (read 8)
  pure (
      at b 0 * 2 ^ 56
      + at b 1 * 2 ^ 48
      + at b 2 * 2 ^ 40
      + at b 3 * 2 ^ 32
      + at b 4 * 2 ^ 24
      + at b 5 * 2 ^ 16
      + at b 6 * 2 ^ 8
      + at b 7)

-- `.ok_or(e)`
abbrev pub or_fail {ℓ} : {A : Type ℓ} → Option A → ErrorCode → M Buffer A
or_fail none e = fail e
or_fail (some a) e = pure a

unfoldable pub read_type : M Buffer Amf0Type
read_type = do t ← read_u8; or_fail (of_marker t) ErrorCode.amf

unfoldable pub read_number : M Buffer ℕ
unfolding read_double
read_number = read_double

unfoldable pub read_boolean : M Buffer Bool
read_boolean = do b ← read_u8; pure (not (b == 0))

-- `buf.read(&mut out[..n])?; out[n] = 0; Ok(n)`
abbrev pub read_into : ℕ → List ℕ → M Buffer (ℕ × List ℕ)
read_into n out = do bytes ← map_err ErrorCode.amf (read n); pure (n, set (splice out 0 bytes) n 0)

unfoldable pub read_string : List ℕ → M Buffer (ℕ × List ℕ)
unfolding marker
read_string out = do
  ty ← read_u8
  fail_if (not (ty == marker string)) ErrorCode.amf
  str_len ← read_u16
  fail_if (leb (length out) str_len) ErrorCode.amf
  read_into str_len out

unfoldable pub read_string_alloc : M Buffer (List ℕ)
unfolding marker
read_string_alloc = do
  ty ← read_u8
  fail_if (not (ty == marker string)) ErrorCode.amf
  len ← read_u16
  bytes ← map_err ErrorCode.amf (read len)
  or_fail (from_utf8 bytes) ErrorCode.amf

unfoldable pub read_long_string : List ℕ → M Buffer (ℕ × List ℕ)
unfolding marker
read_long_string out = do
  ty ← read_u8
  fail_if (not (ty == marker long_string)) ErrorCode.amf
  str_len ← read_u32
  fail_if (length out == 0 || leb (length out) str_len) ErrorCode.amf
  read_into str_len out

unfoldable pub read_object_begin : M Buffer (Unit {0})
unfolding marker
read_object_begin = do ty ← read_u8; fail_if (not (ty == marker object)) ErrorCode.amf

unfoldable pub read_object_key : List ℕ → M Buffer (ℕ × List ℕ)
read_object_key out = do
  klen ← read_u16
  fail_if (leb (length out) klen) ErrorCode.amf
  read_into klen out

-- On the unread bytes: `peek[0] == 0x00 && peek[1] == 0x00 && peek[2] == 0x09`
unfoldable pub ends_object : List ℕ → Bool
ends_object (x ∷ y ∷ z ∷ rest) = x == 0x00 && (y == 0x00 && z == 0x09)
ends_object _ = false

unfoldable pub is_object_end : Buffer → Bool
unfolding ends_object
is_object_end b = ends_object (peek b)
