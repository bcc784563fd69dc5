-- ===== src/Amf/Amf0/SkipValue.antt =====
-- src/amf/amf0.rs: skipping takes exactly one encoded value.
use librtmp.Common.{
  ℕ, zero, suc, ◌^◌, ◌<◌, ◌≤◌, ◌≡◌, ◌≢◌, refl, ap, ◌∙◌, false, Option, some, none, List, [], ◌∷◌,
  ◌++◌, arith, length, le→ltb, append_assoc,
}
use librtmp.Common.Result.{ErrorCode, M, ◌>>=◌, ◌>>◌}
use librtmp.Bytes.{to_be16, to_be32, to_be64}
use librtmp.Buffer.{Buffer, peek, read}
use librtmp.Buffer.Codec.{Parses, Parses-bind, Parses-pure, Parses-map_err, Parses-read}
use librtmp.Amf.Amf0.Marker.{Amf0Type, marker}
use librtmp.Amf.Amf0.Read.{read_u16, read_u32, read_type, is_object_end, ends_object}
use librtmp.Amf.Amf0.Atoms.{
  Parses-read_u8, Parses-read_u16, Parses-read_u32, Parses-read_double, Parses-read_type,
  Parses-skip_bytes,
}
use librtmp.Amf.Amf0.Skip.{
  skip_bytes, skip_items, skip_keys, skip_with, skip_value_depth, skip_value, Skipper,
  max_object_keys, max_skip_depth,
}
use librtmp.Amf.Amf0.Value.{
  Value, Items, Props, number, boolean, string, long_string, xml_doc, object, ecma_array,
  strict_array, typed_object, date, reference, null, undefined, movieclip, nil, cons, done, prop,
  kind, item_count, prop_count, body, items, props, encode, end_marker, Fits, FitsItems, FitsProps,
}

-- Code that starts with a field of known bytes.
Parses-then {ℓ κ} :
    {A : Type ℓ} {B : Type κ} (m : M Buffer A) (f : A → M Buffer B) (xs ys zs : List ℕ) (a : A)
    (c : B)
    → Parses m (xs ++ ys) a ys
    → Parses (f a) ys c zs
    → Parses (m >>= f) (xs ++ ys) c zs
Parses-then m f xs ys zs a c p q = Parses-bind m f (xs ++ ys) ys zs a c p q

-- A counted string.
Parses-counted16 :
    (s rest : List ℕ)
    → length s < 2 ^ 16
    → Parses (read_u16 >>= skip_bytes) ((to_be16 (length s) ++ s) ++ rest) tt rest
Parses-counted16 s rest h =
    Parses-bind _ _ _ (s ++ rest) rest (length s) tt (Parses-read_u16 (length s) (s ++ rest) h)
      (Parses-skip_bytes (length s) s rest refl)

Parses-counted32 :
    (s rest : List ℕ)
    → length s < 2 ^ 32
    → Parses (read_u32 >>= skip_bytes) ((to_be32 (length s) ++ s) ++ rest) tt rest
Parses-counted32 s rest h =
    Parses-bind _ _ _ (s ++ rest) rest (length s) tt (Parses-read_u32 (length s) (s ++ rest) h)
      (Parses-skip_bytes (length s) s rest refl)

-- No property begins like the end marker, since no value has its third byte for a type marker.
key_bytes :
    (n : ℕ) (k : List ℕ) (m : ℕ) (rest : List ℕ)
    → n ≡ length k
    → n < 2 ^ 16
    → m ≢ 9
    → ends_object (to_be16 n ++ (k ++ (m ∷ rest))) ≡ false
unfolding ends_object
key_bytes n [] m rest e h p = ground arith
key_bytes n (x ∷ k) m rest e h p = ground arith

kind_ne_end : (x : Value) → marker (kind x) ≢ 9
unfolding marker
kind_ne_end (number bits) = omega arith
kind_ne_end _ = omega arith

module _ (child : Skipper) where
  keys_end : (n : ℕ) (rest : List ℕ) → Parses (skip_keys child n) (end_marker ++ rest) tt rest
  unfolding skip_keys is_object_end ends_object
  keys_end zero rest b v e = rw e (
      Parses-bind _ _ _ rest rest end_marker tt
        (Parses-map_err ErrorCode.io (read 3) _ rest end_marker
          (Parses-read 3 end_marker rest refl))
        (Parses-pure tt rest) b v e)
  keys_end (suc n) rest b v e = rw e (
      Parses-bind _ _ _ rest rest end_marker tt
        (Parses-map_err ErrorCode.io (read 3) _ rest end_marker
          (Parses-read 3 end_marker rest refl))
        (Parses-pure tt rest) b v e)

  -- One round of the loop over the properties.
  property : ℕ → M Buffer (Unit {0})
  property n = do
    klen ← read_u16
    skip_bytes klen
    child_ty ← read_type
    child child_ty
    skip_keys child n

  keys_round :
      (n : ℕ) (xs rest : List ℕ)
      → ends_object xs ≡ false
      → Parses (property n) xs tt rest
      → Parses (skip_keys child (suc n)) xs tt rest
  unfolding skip_keys is_object_end property
  keys_round n xs rest h p b v e =
      let no_end : ends_object (peek b) ≡ false = ap ends_object e ∙ h in rw no_end (p b v e)

  property_lem :
      (n : ℕ) (k : List ℕ) (ty : Amf0Type) (xs ys rest : List ℕ)
      → length k < 2 ^ 16
      → Parses (child ty) xs tt ys
      → Parses (skip_keys child n) ys tt rest
      → Parses (property n) (to_be16 (length k) ++ (k ++ (marker ty ∷ xs))) tt rest
  unfolding property
  property_lem n k ty xs ys rest h p q =
      Parses-bind _ _ _ (k ++ (marker ty ∷ xs)) rest (length k) tt (Parses-read_u16 (length k) _ h)
        (Parses-bind _ _ _ (marker ty ∷ xs) rest tt tt (Parses-skip_bytes (length k) k _ refl) (
          Parses-bind _ _ _ xs rest ty tt (Parses-read_type ty xs)
            (Parses-bind _ _ _ ys rest tt tt p q)))

  items_none : (rest : List ℕ) → Parses (skip_items child 0) rest tt rest
  unfolding skip_items
  items_none rest = Parses-pure tt rest

  items_round :
      (n : ℕ) (ty : Amf0Type) (xs ys rest : List ℕ)
      → Parses (child ty) xs tt ys
      → Parses (skip_items child n) ys tt rest
      → Parses (skip_items child (suc n)) (marker ty ∷ xs) tt rest
  unfolding skip_items
  items_round n ty xs ys rest p q =
      Parses-bind _ _ _ xs rest ty tt (Parses-read_type ty xs) (Parses-bind _ _ _ ys rest tt tt p q)

-- What skips a child when `left` levels are left.
child_of : ℕ → Option Skipper
child_of zero = none
child_of (suc left) = some (skip_value_depth left)

skip_value_depth_lem :
    (left : ℕ) (ty : Amf0Type) → skip_value_depth left ty ≡ skip_with (child_of left) ty
unfolding skip_value_depth child_of
skip_value_depth_lem zero ty = refl
skip_value_depth_lem (suc left) ty = refl

-- Behind a count.
counted_lem :
    (n : ℕ) (m : M Buffer (Unit {0})) (xs rest : List ℕ)
    → n < 2 ^ 32
    → Parses m xs tt rest
    → Parses (read_u32 >> m) (to_be32 n ++ xs) tt rest
counted_lem n m xs rest h p = Parses-bind _ _ _ xs rest n tt (Parses-read_u32 n xs h) p

mutual
  unfolding body items props skip_with child_of

  skip_body :
      (x : Value) (left : ℕ) (rest : List ℕ)
      → Fits left x
      → Parses (skip_with (child_of left) (kind x)) (body x ++ rest) tt rest
  skip_body (number bits) left rest f =
      Parses-bind _ _ _ rest rest bits tt (Parses-read_double bits rest f) (Parses-pure tt rest)
  skip_body (boolean x) left rest f =
      Parses-bind _ _ _ rest rest _ tt (Parses-read_u8 _ rest) (Parses-pure tt rest)
  skip_body (string s) left rest f = Parses-counted16 s rest f
  skip_body (long_string s) left rest f = Parses-counted32 s rest f
  skip_body (xml_doc s) left rest f = Parses-counted32 s rest f
  skip_body (object ps) zero rest f = absurd f
  skip_body (object ps) (suc left) rest (h, fs) = skip_keys_lem ps left max_object_keys rest fs h
  skip_body (ecma_array n ps) zero rest f = absurd f
  skip_body (ecma_array n ps) (suc left) rest (hn, h, fs) =
      counted_lem n _ (props ps ++ rest) rest hn (skip_keys_lem ps left max_object_keys rest fs h)
  skip_body (strict_array xs) zero rest f = absurd f
  skip_body (strict_array xs) (suc left) rest (h, fs) =
      Parses-bind _ _ _ (items xs ++ rest) rest (item_count xs) tt
        (Parses-read_u32 (item_count xs) (items xs ++ rest) (omega arith))
        (rw (le→ltb max_object_keys (item_count xs) h) (skip_items_lem xs left rest fs))
  skip_body (typed_object c ps) zero rest f = absurd f
  skip_body (typed_object c ps) (suc left) rest (hc, h, fs) = rw (append_assoc c (props ps) rest) (
      Parses-bind _ _ _ (c ++ (props ps ++ rest)) rest (length c) tt
        (Parses-read_u16 (length c) _ hc)
        (Parses-bind _ _ _ (props ps ++ rest) rest tt tt (Parses-skip_bytes (length c) c _ refl)
          (skip_keys_lem ps left max_object_keys rest fs h)))
  skip_body (date ms tz) left rest f = Parses-skip_bytes 10 (to_be64 ms ++ to_be16 tz) rest refl
  skip_body (reference n) left rest f = Parses-skip_bytes 2 (to_be16 n) rest refl
  skip_body null left rest f = Parses-pure tt rest
  skip_body undefined left rest f = Parses-pure tt rest
  skip_body movieclip left rest f = Parses-pure tt rest

  skip_items_lem :
      (xs : Items) (left : ℕ) (rest : List ℕ)
      → FitsItems left xs
      → Parses (skip_items (skip_value_depth left) (item_count xs)) (items xs ++ rest) tt rest
  skip_items_lem nil left rest f = items_none (skip_value_depth left) rest
  skip_items_lem (cons x xs) left rest (f, fs) = rw (append_assoc (body x) (items xs) rest) (
      items_round (skip_value_depth left) (item_count xs) (kind x) (body x ++ (items xs ++ rest))
        (items xs ++ rest) rest
        (rw (skip_value_depth_lem left (kind x)) (skip_body x left (items xs ++ rest) f))
        (skip_items_lem xs left rest fs))

  skip_keys_lem :
      (ps : Props) (left n : ℕ) (rest : List ℕ)
      → FitsProps left ps
      → prop_count ps ≤ n
      → Parses (skip_keys (skip_value_depth left) n) (props ps ++ rest) tt rest
  skip_keys_lem done left n rest f h = keys_end (skip_value_depth left) n rest
  skip_keys_lem (prop k x ps) left zero rest f h = absurd (omega arith)
  skip_keys_lem (prop k x ps) left (suc n) rest (fk, f, fs) h =
      rw
        (
          append_assoc k (marker (kind x) ∷ (body x ++ props ps)) rest,
          append_assoc (body x) (props ps) rest,
        )
        (keys_round (skip_value_depth left) n _ rest
          (key_bytes (length k) k _ _ refl fk (kind_ne_end x))
          (property_lem (skip_value_depth left) n k (kind x) (body x ++ (props ps ++ rest))
            (props ps ++ rest) rest fk
            (rw (skip_value_depth_lem left (kind x)) (skip_body x left (props ps ++ rest) f))
            (skip_keys_lem ps left n rest fs (omega arith))))

-- `skip_value` takes exactly the encoding of a value that nests at most 32 levels deep and whose
-- arrays and objects have at most 256 elements, and leaves what follows it.
pub skip_value-encode :
    (x : Value) (rest : List ℕ)
    → Fits max_skip_depth x
    → Parses skip_value (encode x ++ rest) tt rest
unfolding skip_value encode
skip_value-encode x rest f =
    Parses-bind _ _ _ (body x ++ rest) rest (kind x) tt (Parses-read_type (kind x) (body x ++ rest))
      (rw (skip_value_depth_lem max_skip_depth (kind x)) (skip_body x max_skip_depth rest f))
