-- ===== src/Amf/Amf0/Value.antt =====
-- AMF0 values and their encoding, as an independent description of what src/amf/amf0.rs skips.
use librtmp.Common.{ℕ, zero, suc, ◌^◌, ◌<◌, ◌≤◌, Bool, List, [], ◌∷◌, ◌++◌, if◌then◌else◌, length}
use librtmp.Bytes.{to_be16, to_be32, to_be64}
use librtmp.Amf.Amf0.Marker.{Amf0Type, marker}

mutual
  pub data Value : Type 0 where
    number : ℕ → Value
    boolean : Bool → Value
    string long_string xml_doc : List ℕ → Value
    object : Props → Value
    ecma_array : ℕ → Props → Value
    strict_array : Items → Value
    typed_object : List ℕ → Props → Value
    -- Milliseconds as a double, and the time zone.
    date : ℕ → ℕ → Value
    reference : ℕ → Value
    null undefined movieclip : Value

  pub data Items : Type 0 where
    nil : Items
    cons : Value → Items → Items

  pub data Props : Type 0 where
    done : Props
    prop : List ℕ → Value → Props → Props

abbrev pub kind : Value → Amf0Type
kind (number bits) = Amf0Type.number
kind (boolean x) = Amf0Type.boolean
kind (string s) = Amf0Type.string
kind (long_string s) = Amf0Type.long_string
kind (xml_doc s) = Amf0Type.xml_doc
kind (object ps) = Amf0Type.object
kind (ecma_array n ps) = Amf0Type.ecma_array
kind (strict_array xs) = Amf0Type.strict_array
kind (typed_object c ps) = Amf0Type.typed_object
kind (date ms tz) = Amf0Type.date
kind (reference n) = Amf0Type.reference
kind null = Amf0Type.null
kind undefined = Amf0Type.undefined
kind movieclip = Amf0Type.movieclip

abbrev pub item_count : Items → ℕ
item_count nil = 0
item_count (cons x xs) = suc (item_count xs)

abbrev pub prop_count : Props → ℕ
prop_count done = 0
prop_count (prop k x ps) = suc (prop_count ps)

abbrev pub end_marker : List ℕ
end_marker = 0x00 ∷ 0x00 ∷ 0x09 ∷ []

-- What stands behind the type marker.
unfoldable mutual
  pub body : Value → List ℕ
  body (number bits) = to_be64 bits
  body (boolean x) = (if x then 1 else 0) ∷ []
  body (string s) = to_be16 (length s) ++ s
  body (long_string s) = to_be32 (length s) ++ s
  body (xml_doc s) = to_be32 (length s) ++ s
  body (object ps) = props ps
  body (ecma_array n ps) = to_be32 n ++ props ps
  body (strict_array xs) = to_be32 (item_count xs) ++ items xs
  body (typed_object c ps) = to_be16 (length c) ++ (c ++ props ps)
  body (date ms tz) = to_be64 ms ++ to_be16 tz
  body (reference n) = to_be16 n
  body null = []
  body undefined = []
  body movieclip = []

  pub items : Items → List ℕ
  items nil = []
  items (cons x xs) = marker (kind x) ∷ (body x ++ items xs)

  pub props : Props → List ℕ
  props done = end_marker
  props (prop k x ps) = to_be16 (length k) ++ (k ++ (marker (kind x) ∷ (body x ++ props ps)))

unfoldable pub encode : Value → List ℕ
encode x = marker (kind x) ∷ body x

-- The value fits what the decoder accepts: its numbers fit their fields, containers nest at most
-- `left` levels deep, and no array or object has more than 256 elements.
abbrev mutual
  pub Fits : ℕ → Value → Type 0
  Fits left (number bits) = bits < 2 ^ 64
  Fits left (boolean x) = Unit {0}
  Fits left (string s) = length s < 2 ^ 16
  Fits left (long_string s) = length s < 2 ^ 32
  Fits left (xml_doc s) = length s < 2 ^ 32
  Fits zero (object ps) = ⊥
  Fits (suc left) (object ps) = (prop_count ps ≤ 256) × FitsProps left ps
  Fits zero (ecma_array n ps) = ⊥
  Fits (suc left) (ecma_array n ps) = (n < 2 ^ 32) × (prop_count ps ≤ 256) × FitsProps left ps
  Fits zero (strict_array xs) = ⊥
  Fits (suc left) (strict_array xs) = (item_count xs ≤ 256) × FitsItems left xs
  Fits zero (typed_object c ps) = ⊥
  Fits (suc left) (typed_object c ps) =
      (length c < 2 ^ 16) × (prop_count ps ≤ 256) × FitsProps left ps
  Fits left (date ms tz) = (ms < 2 ^ 64) × (tz < 2 ^ 16)
  Fits left (reference n) = n < 2 ^ 16
  Fits left null = Unit {0}
  Fits left undefined = Unit {0}
  Fits left movieclip = Unit {0}

  pub FitsItems : ℕ → Items → Type 0
  FitsItems left nil = Unit {0}
  FitsItems left (cons x xs) = Fits left x × FitsItems left xs

  pub FitsProps : ℕ → Props → Type 0
  FitsProps left done = Unit {0}
  FitsProps left (prop k x ps) = (length k < 2 ^ 16) × Fits left x × FitsProps left ps
