-- ===== src/Chunk/MediaOut/Compact.antt =====
-- src/chunk/media_out.rs: the compressed headers in chunk/reader.rs. A header of format 1 or 2 whose
-- timestamp field needs no extension is seen by phase 1 and taken by phase 2.
use librtmp.Common.{
  ℕ, ◌+◌, ◌*◌, ◌/◌, ◌%◌, ◌^◌, ◌≤◌, ◌<◌, ◌≡◌, refl, ◌⊎◌, inl, inr, true, false, Option, some, List,
  [], ◌∷◌, ◌++◌, arith, lt→leb, length, ◌==◌, if◌then◌else◌,
}
use librtmp.Bytes.{hton24}
use librtmp.Chunk.State.{ChunkStream, ChunkRegistry, can_get_or_create}
use librtmp.Chunk.Reader.{Header}
use librtmp.Chunk.Reader.Peek.{
  go, be24_at, peek_stream, ext_ts, effective_length, part_length, budget_exceeded,
}
use librtmp.Chunk.Reader.Consume.{decode_header}
use librtmp.Chunk.Reader.Facts.{field_bytes}
use librtmp.Chunk.Writer.{basic_header, first_header, extended_timestamp_marker}
use librtmp.Chunk.RoundTrip.First.{plan}

-- The fields of the two formats.
unfoldable pub short_fields : ℕ → ℕ → ℕ → ℕ → List ℕ
unfolding hton24
short_fields fmt d n ty = if fmt == 1 then hton24 d ++ (hton24 n ++ (ty ∷ [])) else hton24 d

-- The format is 1 or 2.
abbrev pub IsShort : ℕ → Type 0
IsShort fmt = (fmt ≡ 1) ⊎ (fmt ≡ 2)

pub short_header :
    (csid fmt d n ty sid : ℕ)
    → IsShort fmt
    → d < extended_timestamp_marker
    → first_header csid fmt d n ty sid ≡ basic_header csid fmt ++ short_fields fmt d n ty
unfolding first_header short_fields hton24
short_header csid fmt d n ty sid (inl e) h = rw (e, lt→leb extended_timestamp_marker d h) refl
short_header csid fmt d n ty sid (inr e) h = rw (e, lt→leb extended_timestamp_marker d h) refl

pub length-short_fields :
    (fmt d n ty : ℕ) → IsShort fmt → length (short_fields fmt d n ty) ≡ field_bytes fmt
unfolding short_fields hton24
length-short_fields fmt d n ty (inl e) = rw e refl
length-short_fields fmt d n ty (inr e) = rw e refl

pub short_timestamp :
    (fmt d n ty : ℕ) (ys : List ℕ)
    → IsShort fmt
    → d < extended_timestamp_marker
    → be24_at (short_fields fmt d n ty ++ ys) 0 ≡ d
unfolding short_fields hton24
short_timestamp fmt d n ty ys (inl e) h = rw e (omega arith)
short_timestamp fmt d n ty ys (inr e) h = rw e (omega arith)

pub short_length :
    (d n ty : ℕ) (ys : List ℕ) → n < 2 ^ 24 → be24_at (short_fields 1 d n ty ++ ys) 3 ≡ n
unfolding short_fields hton24
short_length d n ty ys h = omega arith

-- The header that the reader makes of the fields; those that the format lacks are 0.
abbrev pub short_decoded : ℕ → ℕ → ℕ → ℕ → Header
short_decoded fmt d n ty = record {
  timestamp = d;
  msg_length = if fmt == 1 then n else 0;
  msg_type_id = if fmt == 1 then ty else 0;
  msg_stream_id = 0;
}

pub short_decode :
    (fmt d n ty : ℕ) (ys : List ℕ)
    → IsShort fmt
    → d < extended_timestamp_marker
    → n < 2 ^ 24
    → decode_header fmt (short_fields fmt d n ty ++ ys) ≡ short_decoded fmt d n ty
unfolding short_fields hton24
short_decode fmt d n ty ys (inl e) h k =
    let et : d / 65536 % 256 * 65536 + d / 256 % 256 * 256 + d % 256 ≡ d = omega arith in
    let en : n / 65536 % 256 * 65536 + n / 256 % 256 * 256 + n % 256 ≡ n = omega arith in
    rw e (λ i. record { timestamp = et i; msg_length = en i; msg_type_id = ty; msg_stream_id = 0 })
short_decode fmt d n ty ys (inr e) h k =
    let et : d / 65536 % 256 * 65536 + d / 256 % 256 * 256 + d % 256 ≡ d = omega arith in
    rw e (λ i. record { timestamp = et i; msg_length = 0; msg_type_id = 0; msg_stream_id = 0 })

-- Phase 1 behind the basic header.
module _ (xs : List ℕ) (avail : ℕ) (reg : ChunkRegistry) (csid hs : ℕ) where
  pub stream_first_1 :
      (o : Option ChunkStream) (d n k : ℕ)
      → be24_at xs hs ≡ d
      → d < extended_timestamp_marker
      → be24_at xs (hs + 3) ≡ n
      → n ≤ reg.max_msg_length
      → part_length reg 1 n o ≡ k
      → budget_exceeded reg 1 o k ≡ false
      → can_get_or_create reg csid ≡ true
      → hs + 7 + k ≤ avail
      → peek_stream xs avail reg 1 csid hs (hs + 7) o ≡ go (plan xs avail reg csid hs 1 false k)
  unfolding peek_stream ext_ts effective_length
  stream_first_1 o d n k et small en short ek budget can fits = ground arith

  pub stream_first_2 :
      (s : ChunkStream) (d n k : ℕ)
      → be24_at xs hs ≡ d
      → d < extended_timestamp_marker
      → s.type0_msg_length ≡ n
      → s.has_message_header ≡ true
      → s.reassembly_bytes_read ≡ 0
      → n ≤ reg.max_msg_length
      → part_length reg 2 n (some s) ≡ k
      → budget_exceeded reg 2 (some s) k ≡ false
      → can_get_or_create reg csid ≡ true
      → hs + 3 + k ≤ avail
      → peek_stream xs avail reg 2 csid hs (hs + 3) (some s)
        ≡ go (plan xs avail reg csid hs 2 false k)
  unfolding peek_stream ext_ts effective_length
  stream_first_2 s d n k et small en head idle short ek budget can fits = ground arith
