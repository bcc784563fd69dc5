-- ===== src/Amf/Amf0/RoundTrip.antt =====
-- src/amf/amf0.rs: the decoder reads back what the encoder has written.
use librtmp.Common.{
  ℕ, ◌^◌, ◌+◌, ◌<◌, ◌≤◌, ◌≡◌, refl, true, some, List, [], ◌∷◌, ◌++◌, arith, length, le→ltb,
  length-append,
}
use librtmp.Common.Result.{ok, ErrorCode, M, ◌>>◌, map_err}
use librtmp.Bytes.{to_be16}
use librtmp.Buffer.{Buffer, peek, read, buffer_max_size}
use librtmp.Buffer.Wf.{IsValid}
use librtmp.Buffer.Codec.{
  Parses, Parses-bind, Parses-pure, Parses-map_err, Parses-read, Parses-Emits, Emits, Emits-put,
  Emits-seq, put,
}
use librtmp.Amf.Amf0.Marker.{marker, string}
use librtmp.Amf.Amf0.Read.{read_u8, read_u16, read_string_alloc, or_fail}
use librtmp.Amf.Amf0.Write.{write_string, u16_max}
use librtmp.Amf.Amf0.Utf8.{from_utf8}
use librtmp.Amf.Amf0.Atoms.{Parses-read_u8, Parses-read_u16}
use librtmp.Amf.Amf0.Value.{Value, encode, Fits}
use librtmp.Amf.Amf0.Skip.{skip_value, max_skip_depth}
use librtmp.Amf.Amf0.SkipValue.{skip_value-encode}

-- `m` returns `a` from `b` and leaves `rest` unread.
abbrev pub Returns {ℓ} : {A : Type ℓ} → M Buffer A → Buffer → A → List ℕ → Type ℓ
Returns m b a rest =
    (c : Buffer) × (m b ≡ (c, ok a)) × IsValid c × (peek c ≡ rest) × (c.owned ≡ b.owned)

-- `w` and then the bytes `rest` are written to `b`, and `r` reads `a` and leaves `rest`.
abbrev pub RoundTrips {ℓ} :
    {A : Type ℓ} → M Buffer (Unit {0}) → M Buffer A → A → List ℕ → Buffer → Type ℓ
RoundTrips w r a rest b =
    (c d : Buffer) × ((w >> put rest) b ≡ (c, ok tt)) × (r c ≡ (d, ok a)) × (peek d ≡ rest)

-- `skip_value` takes exactly one encoded value: a value that nests at most 32 levels deep, whose
-- arrays and objects have at most 256 elements, and whose numbers fit their fields is skipped
-- without an error, and what follows it stays unread.
pub skip_value_takes :
    (x : Value) (rest : List ℕ) (b : Buffer)
    → Fits max_skip_depth x
    → IsValid b
    → peek b ≡ encode x ++ rest
    → Returns skip_value b tt rest
skip_value_takes x rest b f v e = skip_value-encode x rest f b v e

abbrev string_bytes : List ℕ → List ℕ
string_bytes s = marker string ∷ (to_be16 (length s) ++ s)

Emits-write_string : (s : List ℕ) → length s < 2 ^ 16 → Emits (write_string s) (string_bytes s)
unfolding write_string
Emits-write_string s h b v own room = rw (le→ltb u16_max (length s) (omega arith)) (
    Emits-seq _ _ (marker string ∷ []) (to_be16 (length s) ++ s) (Emits-put _)
      (Emits-seq _ _ (to_be16 (length s)) s (Emits-put _) (Emits-put _)) b v own room)

Parses-read_string_alloc :
    (s rest : List ℕ)
    → length s < 2 ^ 16
    → from_utf8 s ≡ some s
    → Parses read_string_alloc (string_bytes s ++ rest) s rest
unfolding read_string_alloc
Parses-read_string_alloc s rest h u =
    Parses-bind read_u8 _ (string_bytes s ++ rest) (to_be16 (length s) ++ (s ++ rest)) rest
      (marker string) s (Parses-read_u8 (marker string) (to_be16 (length s) ++ (s ++ rest)))
      (Parses-bind read_u16 _ (to_be16 (length s) ++ (s ++ rest)) (s ++ rest) rest (length s) s
        (Parses-read_u16 (length s) (s ++ rest) h)
        (Parses-bind (map_err ErrorCode.amf (read (length s)))
          (λ bytes. or_fail (from_utf8 bytes) ErrorCode.amf) (s ++ rest) rest rest s s
          (Parses-map_err ErrorCode.amf (read (length s)) (s ++ rest) rest s
            (Parses-read (length s) s rest refl))
          (rw u (Parses-pure s rest))))

module _ (b : Buffer) (v : IsValid b) (own : b.owned ≡ true) (empty : peek b ≡ [])
    (rest : List ℕ) where
  -- A string of at most 65535 bytes of UTF-8 is read back as it was written.
  pub string_round_trip :
      (s : List ℕ)
      → length s < 2 ^ 16
      → from_utf8 s ≡ some s
      → 3 + length s + length rest ≤ buffer_max_size
      → RoundTrips (write_string s) read_string_alloc s rest b
  string_round_trip s h u room =
      Parses-Emits (write_string s) read_string_alloc (string_bytes s) rest s
        (Emits-write_string s h) (Parses-read_string_alloc s rest h u) b v own empty
        (omega (arith, length-append (to_be16 (length s)) s))
