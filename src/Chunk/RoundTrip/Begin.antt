-- ===== src/Chunk/RoundTrip/Begin.antt =====
-- src/chunk: the first chunk of a message, written by chunk/writer.rs and read by chunk/reader.rs.
use librtmp.Common.{
  ℕ, ◌+◌, ◌*◌, ◌/◌, ◌%◌, ◌^◌, ◌<◌, ◌≡◌, refl, sym, ap, ◌∙◌, inl, inr, List, [], ◌∷◌, ◌++◌, arith,
  leb, length, drop, if◌then◌else◌, Bool-cases, length-append, drop-append, drop-drop, append_assoc,
}
use librtmp.Bytes.{to_be32, to_le32, hton24}
use librtmp.Bytes.Order.{ntoh32-to_be32}
use librtmp.Chunk.Reader.Facts.{ext_bytes}
use librtmp.Chunk.Reader.{Header}
use librtmp.Chunk.Reader.Peek.{Plan, be24_at}
use librtmp.Chunk.Reader.Consume.{header_in, decode_header, decode_ext}
use librtmp.Chunk.Reader.Begin.{be24-drop}
use librtmp.Chunk.Writer.{basic_header, first_header, extended_timestamp_marker}

-- The header's fields, and the extended timestamp.
abbrev pub ts_field : ℕ → ℕ
ts_field ts = if leb extended_timestamp_marker ts then extended_timestamp_marker else ts

abbrev pub ext_part : ℕ → List ℕ
ext_part ts = if leb extended_timestamp_marker ts then to_be32 ts else []

unfoldable fields : ℕ → ℕ → ℕ → ℕ → List ℕ
unfolding hton24
fields f n ty sid = hton24 f ++ ((hton24 n ++ (ty ∷ [])) ++ to_le32 sid)

first_header_parts :
    (csid ts n ty sid : ℕ)
    → first_header csid 0 ts n ty sid
      ≡ basic_header csid 0 ++ (fields (ts_field ts) n ty sid ++ ext_part ts)
unfolding first_header fields hton24
first_header_parts csid ts n ty sid = refl

module _ (f n ty sid : ℕ) (hf : f < 2 ^ 24) (hn : n < 2 ^ 24) (hs : sid < 2 ^ 32)
    (ys : List ℕ) where
  fields_timestamp : be24_at (fields f n ty sid ++ ys) 0 ≡ f
  unfolding fields hton24
  fields_timestamp = omega arith

  fields_length : be24_at (fields f n ty sid ++ ys) 3 ≡ n
  unfolding fields hton24
  fields_length = omega arith

  fields_decode :
      decode_header 0 (fields f n ty sid ++ ys)
      ≡ record { timestamp = f; msg_length = n; msg_type_id = ty; msg_stream_id = sid }
  unfolding fields hton24
  fields_decode =
      let et : f / 65536 % 256 * 65536 + f / 256 % 256 * 256 + f % 256 ≡ f = omega arith in
      let en : n / 65536 % 256 * 65536 + n / 256 % 256 * 256 + n % 256 ≡ n = omega arith in
      let es : sid % 256
            + sid / 256 % 256 * 256
            + sid / 65536 % 256 * 65536
            + sid / 16777216 % 256 * 16777216
          ≡ sid =
        omega arith in
      λ i. record { timestamp = et i; msg_length = en i; msg_type_id = ty; msg_stream_id = es i }

length-fields : (f n ty sid : ℕ) → length (fields f n ty sid) ≡ 11
unfolding fields hton24
length-fields f n ty sid = refl

ts_field_small : (ts : ℕ) → ts_field ts < 2 ^ 24
ts_field_small ts = ground arith

pub ts_field_ext : (ts : ℕ) → leb 0xFFFFFF (ts_field ts) ≡ leb 0xFFFFFF ts
ts_field_ext ts = ground arith

length-ext_part : (ts : ℕ) → length (ext_part ts) ≡ ext_bytes (leb 0xFFFFFF ts)
length-ext_part ts = ground arith

decode_ext_lem :
    (ts : ℕ) (ys : List ℕ)
    → ts < 2 ^ 32
    → decode_ext (leb 0xFFFFFF ts) (ts_field ts) (ext_part ts ++ ys) ≡ ts
decode_ext_lem ts ys h = elim (Bool-cases (leb 0xFFFFFF ts)) [
  | inl ext ↦ rw ext (ntoh32-to_be32 ts ys h)
  | inr plain ↦ rw plain refl
]

module _ (csid ts n ty sid : ℕ) (ys xs : List ℕ)
    (e : xs ≡ first_header csid 0 ts n ty sid ++ ys) where
  abbrev F : List ℕ
  F = fields (ts_field ts) n ty sid

  abbrev hs : ℕ
  hs = length (basic_header csid 0)

  parts : xs ≡ basic_header csid 0 ++ (F ++ (ext_part ts ++ ys))
  parts =
      e
      ∙ ap (λ zs. zs ++ ys) (first_header_parts csid ts n ty sid)
      ∙ append_assoc (basic_header csid 0) (F ++ ext_part ts) ys
      ∙ ap (λ zs. basic_header csid 0 ++ zs) (append_assoc F (ext_part ts) ys)

  pub starts : (zs : List ℕ) × (xs ≡ basic_header csid 0 ++ zs)
  starts = (F ++ (ext_part ts ++ ys), parts)

  behind_basic : drop hs xs ≡ F ++ (ext_part ts ++ ys)
  behind_basic = ap (drop hs) parts ∙ drop-append hs (basic_header csid 0) _ refl

  behind_fields : drop (hs + 11) xs ≡ ext_part ts ++ ys
  behind_fields =
      sym (drop-drop 11 hs xs)
      ∙ ap (drop 11) behind_basic
      ∙ drop-append 11 F (ext_part ts ++ ys) (sym (length-fields (ts_field ts) n ty sid))

  pub behind_first_header : drop (hs + 11 + ext_bytes (leb 0xFFFFFF ts)) xs ≡ ys
  behind_first_header =
      sym (drop-drop (ext_bytes (leb 0xFFFFFF ts)) (hs + 11) xs)
      ∙ ap (drop (ext_bytes (leb 0xFFFFFF ts))) behind_fields
      ∙ drop-append (ext_bytes (leb 0xFFFFFF ts)) (ext_part ts) ys (sym (length-ext_part ts))

  pub length-first_bytes : length xs ≡ hs + 11 + ext_bytes (leb 0xFFFFFF ts) + length ys
  length-first_bytes = omega (
    arith,
    ap length parts,
    length-append (basic_header csid 0) (F ++ (ext_part ts ++ ys)),
    length-append F (ext_part ts ++ ys),
    length-append (ext_part ts) ys,
    length-ext_part ts,
    length-fields (ts_field ts) n ty sid,
  )

  module _ (ht : ts < 2 ^ 32) (hn : n < 2 ^ 24) (hsid : sid < 2 ^ 32) where
    pub timestamp_field : be24_at xs hs ≡ ts_field ts
    timestamp_field =
        ap (λ k. be24_at xs k) (sym (add_zero hs))
        ∙ sym (be24-drop 0 hs xs)
        ∙ ap (λ zs. be24_at zs 0) behind_basic
        ∙ fields_timestamp (ts_field ts) n ty sid (ts_field_small ts) hn hsid (ext_part ts ++ ys)
      where
        add_zero : (k : ℕ) → k + 0 ≡ k
        add_zero k = omega arith

    pub length_field : be24_at xs (hs + 3) ≡ n
    length_field =
        sym (be24-drop 3 hs xs)
        ∙ ap (λ zs. be24_at zs 3) behind_basic
        ∙ fields_length (ts_field ts) n ty sid (ts_field_small ts) hn hsid (ext_part ts ++ ys)

    -- Phase 2 takes the header that the writer was given.
    pub header_in_lem :
        (p : Plan)
        → p.fmt ≡ 0
        → p.header_size ≡ hs
        → p.ext_ts ≡ leb 0xFFFFFF ts
        → header_in p xs
          ≡ record { timestamp = ts; msg_length = n; msg_type_id = ty; msg_stream_id = sid }
    header_in_lem p ef es ex =
        let decoded : decode_header 0 (drop hs xs) ≡ record {
          timestamp = ts_field ts;
          msg_length = n;
          msg_type_id = ty;
          msg_stream_id = sid;
        } =
          ap (decode_header 0) behind_basic
          ∙ fields_decode (ts_field ts) n ty sid (ts_field_small ts) hn hsid (ext_part ts ++ ys) in
        rw (ef, es, ex)
          (ap
              (λ (h : Header). record h {
                timestamp = decode_ext (leb 0xFFFFFF ts) h.timestamp (drop (hs + 11) xs);
              })
              decoded
            ∙ ap
                (λ (t : ℕ). record {
                  timestamp = t;
                  msg_length = n;
                  msg_type_id = ty;
                  msg_stream_id = sid;
                })
                (ap (decode_ext (leb 0xFFFFFF ts) (ts_field ts)) behind_fields
                  ∙ decode_ext_lem ts ys ht))
