-- ===== src/Amf/Amf0/Marker.antt =====
-- src/amf/amf0.rs: the type markers.
use librtmp.Common.{ℕ, ◌≡◌, refl, Option, some, List, [], ◌∷◌, get_elem?}

pub data Amf0Type : Type 0 where
  number boolean string object movieclip null undefined reference ecma_array : Amf0Type
  object_end strict_array date long_string unsupported recordset xml_doc typed_object : Amf0Type
  avmplus : Amf0Type

-- `ty as u8`
unfoldable pub marker : Amf0Type → ℕ
marker number = 0x00
marker boolean = 0x01
marker string = 0x02
marker object = 0x03
marker movieclip = 0x04
marker null = 0x05
marker undefined = 0x06
marker reference = 0x07
marker ecma_array = 0x08
marker object_end = 0x09
marker strict_array = 0x0A
marker date = 0x0B
marker long_string = 0x0C
marker unsupported = 0x0D
marker recordset = 0x0E
marker xml_doc = 0x0F
marker typed_object = 0x10
marker avmplus = 0x11

-- The arms of `read_type`, from 0x00 on.
abbrev markers : List Amf0Type
markers =
    number ∷ boolean ∷ string ∷ object ∷ movieclip ∷ null ∷ undefined ∷ reference ∷ ecma_array
    ∷ object_end ∷ strict_array ∷ date ∷ long_string ∷ unsupported ∷ recordset ∷ xml_doc
    ∷ typed_object ∷ avmplus ∷ []

unfoldable pub of_marker : ℕ → Option Amf0Type
of_marker t = get_elem? markers t

pub of_marker-marker : (ty : Amf0Type) → of_marker (marker ty) ≡ some ty
unfolding of_marker marker
of_marker-marker number = refl
of_marker-marker _ = refl
