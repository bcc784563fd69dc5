-- ===== src/Amf/Amf0/Skip.antt =====
-- src/amf/amf0.rs: skipping a value of any type. The nesting that is left below a value, and the
-- keys that an object may still have, count down, so that the recursion is structural: at depth
-- `max_skip_depth` there is no child to skip, and `max_object_keys` keys end an object.
use librtmp.Common.{ℕ, zero, suc, Option, none, some, ltb, if◌then◌else◌}
use librtmp.Common.Result.{ok, err, ErrorCode, M, ◌>>=◌, ◌>>◌, map_err, pure, fail, fail_if}
use librtmp.Buffer.{Buffer, available, drain, read}
use librtmp.Amf.Amf0.Marker.{
  Amf0Type, number, boolean, string, object, movieclip, null, undefined, reference, ecma_array,
  object_end, strict_array, date, long_string, unsupported, recordset, xml_doc, typed_object,
  avmplus,
}
use librtmp.Amf.Amf0.Read.{read_u8, read_u16, read_u32, read_double, read_type, is_object_end}

abbrev pub max_skip_depth : ℕ
max_skip_depth = 32

abbrev pub max_object_keys : ℕ
max_object_keys = 256

-- `if buf.available() < n { return Err(Io); } buf.drain(n);`
unfoldable pub skip_bytes : ℕ → M Buffer (Unit {0})
skip_bytes n b = if ltb (available b) n then (b, err ErrorCode.io) else (drain n b, ok tt)

abbrev pub Skipper : Type 0
Skipper = Amf0Type → M Buffer (Unit {0})

-- The `for` of a strict array.
unfoldable pub skip_items : Skipper → ℕ → M Buffer (Unit {0})
skip_items child zero b = (b, ok tt)
skip_items child (suc n) b = (do child_ty ← read_type; child child_ty; skip_items child n) b

abbrev pub read_object_end : M Buffer (Unit {0})
read_object_end = do map_err ErrorCode.io (read 3); pure tt

-- The `loop` over an object's properties, with the keys that are still allowed.
unfoldable pub skip_keys : Skipper → ℕ → M Buffer (Unit {0})
skip_keys child zero b = if is_object_end b then read_object_end b else (b, err ErrorCode.amf)
skip_keys child (suc n) b =
    let property =
      (do klen ← read_u16; skip_bytes klen; child_ty ← read_type; child child_ty; skip_keys child n)
        b in
    if is_object_end b then read_object_end b else property

-- `skip_value_depth`, given what skips a child; `none` at the largest depth.
unfoldable pub skip_with : Option Skipper → Skipper
unfolding skip_items skip_keys skip_bytes
skip_with child number = do read_double; pure tt
skip_with child boolean = do read_u8; pure tt
skip_with child string = do len ← read_u16; skip_bytes len
skip_with child long_string = do len ← read_u32; skip_bytes len
skip_with none strict_array = fail ErrorCode.amf
skip_with (some child) strict_array = do
  count ← read_u32
  fail_if (ltb max_object_keys count) ErrorCode.amf
  skip_items child count
skip_with none object = fail ErrorCode.amf
skip_with (some child) object = skip_keys child max_object_keys
skip_with none ecma_array = fail ErrorCode.amf
skip_with (some child) ecma_array = do read_u32; skip_keys child max_object_keys
skip_with child date = skip_bytes 10
skip_with child reference = skip_bytes 2
skip_with child null = pure tt
skip_with child undefined = pure tt
skip_with child movieclip = pure tt
skip_with child xml_doc = do len ← read_u32; skip_bytes len
skip_with none typed_object = fail ErrorCode.amf
skip_with (some child) typed_object = do
  class_len ← read_u16
  skip_bytes class_len
  skip_keys child max_object_keys
skip_with child object_end = fail ErrorCode.unsupported
skip_with child unsupported = fail ErrorCode.unsupported
skip_with child recordset = fail ErrorCode.unsupported
skip_with child avmplus = fail ErrorCode.unsupported

-- `skip_value_depth` with `max_skip_depth - depth` levels left.
unfoldable pub skip_value_depth : ℕ → Skipper
unfolding skip_with
skip_value_depth zero ty = skip_with none ty
skip_value_depth (suc left) ty = skip_with (some (skip_value_depth left)) ty

unfoldable pub skip_value_after_type : Skipper
unfolding skip_value_depth
skip_value_after_type ty = skip_value_depth max_skip_depth ty

unfoldable pub skip_value : M Buffer (Unit {0})
unfolding skip_value_depth
skip_value = do ty ← read_type; skip_value_depth max_skip_depth ty
