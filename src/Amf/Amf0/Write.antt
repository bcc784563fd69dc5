-- ===== src/Amf/Amf0/Write.antt =====
-- src/amf/amf0.rs: the encoder.
use librtmp.Common.{ℕ, Bool, List, [], ◌∷◌, ltb, if◌then◌else◌, length}
use librtmp.Common.Result.{ErrorCode, M, ◌>>◌, fail_if}
use librtmp.Bytes.{to_be16, to_be32, to_be64}
use librtmp.Buffer.{Buffer}
use librtmp.Buffer.Codec.{put}
use librtmp.Amf.Amf0.Marker.{
  marker, number, boolean, null, undefined, string, long_string, object, ecma_array,
}

abbrev pub u16_max : ℕ
u16_max = 0xFFFF

abbrev pub u32_max : ℕ
u32_max = 0xFFFF_FFFF

unfoldable pub write_number : ℕ → M Buffer (Unit {0})
unfolding marker
write_number bits = do put (marker number ∷ []); put (to_be64 bits)

unfoldable pub write_boolean : Bool → M Buffer (Unit {0})
unfolding marker
write_boolean value = do put (marker boolean ∷ []); put ((if value then 1 else 0) ∷ [])

unfoldable pub write_null : M Buffer (Unit {0})
unfolding marker
write_null = put (marker null ∷ [])

unfoldable pub write_undefined : M Buffer (Unit {0})
unfolding marker
write_undefined = put (marker undefined ∷ [])

unfoldable pub write_string : List ℕ → M Buffer (Unit {0})
unfolding marker
write_string s = do
  fail_if (ltb u16_max (length s)) ErrorCode.amf
  put (marker string ∷ [])
  put (to_be16 (length s))
  put s

unfoldable pub write_long_string_bytes : List ℕ → M Buffer (Unit {0})
unfolding marker
write_long_string_bytes payload = do
  fail_if (ltb u32_max (length payload)) ErrorCode.amf
  put (marker long_string ∷ [])
  put (to_be32 (length payload))
  put payload

unfoldable pub write_long_string : List ℕ → M Buffer (Unit {0})
unfolding write_long_string_bytes
write_long_string s = write_long_string_bytes s

unfoldable pub write_object_begin : M Buffer (Unit {0})
unfolding marker
write_object_begin = put (marker object ∷ [])

unfoldable pub write_object_end : M Buffer (Unit {0})
write_object_end = put (0x00 ∷ 0x00 ∷ 0x09 ∷ [])

unfoldable pub write_object_key : List ℕ → M Buffer (Unit {0})
write_object_key key = do
  fail_if (ltb u16_max (length key)) ErrorCode.amf
  put (to_be16 (length key))
  put key

unfoldable pub write_ecma_array_begin : ℕ → M Buffer (Unit {0})
unfolding marker
write_ecma_array_begin count = do put (marker ecma_array ∷ []); put (to_be32 count)
