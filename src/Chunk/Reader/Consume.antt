-- ===== src/Chunk/Reader/Consume.antt =====
-- src/chunk/reader.rs: phase 2 takes the header that phase 1 has seen.
use librtmp.Common.{
  ℕ, zero, suc, ◌+◌, ◌*◌, ◌^◌, ◌≤◌, ◌<◌, ◌≡◌, refl, sym, ap, ◌∙◌, subst, Bool, true, false, List,
  arith, ◌==◌, length, take, drop, if◌then◌else◌, take-append-drop, length-take_le, length-drop,
  drop-drop, get_or-take,
}
use librtmp.Common.Result.{ErrorCode, M, ◌>>=◌, map_err, pure}
use librtmp.Bytes.{at, ntoh32}
use librtmp.Buffer.{Buffer, drain, read}
use librtmp.Buffer.Queue.{drain_lem}
use librtmp.Buffer.Codec.{Parses, Parses-bind, Parses-pure, Parses-map_err, Parses-read}
use librtmp.Chunk.Reader.{Header, read_header, read_ext_timestamp, consume_header, pass}
use librtmp.Chunk.Reader.Peek.{Plan, be24_at}
use librtmp.Chunk.Reader.Facts.{field_bytes, ext_bytes}

Parses-pass : (n : ℕ) (xs : List ℕ) → Parses (pass n) xs tt (drop n xs)
Parses-pass n xs b v e =
    let (w, seen, own) = drain_lem n b v in (drain n b, refl, w, seen ∙ ap (drop n) e, own)

-- A read of `n` bytes off any input that has them.
pub Parses-take : (n : ℕ) (xs : List ℕ) → n ≤ length xs → Parses (read n) xs (take n xs) (drop n xs)
Parses-take n xs h =
    subst (λ ys. Parses (read n) ys (take n xs) (drop n xs)) (take-append-drop n xs)
      (Parses-read n (take n xs) (drop n xs) (sym (length-take_le n xs h)))

-- The message header of each format at the front of `xs`.
abbrev pub decode_header : ℕ → List ℕ → Header
decode_header fmt xs =
    if fmt == 0
    then record {
      timestamp = be24_at xs 0;
      msg_length = be24_at xs 3;
      msg_type_id = at xs 6;
      msg_stream_id = at xs 7 + at xs 8 * 2 ^ 8 + at xs 9 * 2 ^ 16 + at xs 10 * 2 ^ 24;
    }
    else if fmt == 1
    then record {
      timestamp = be24_at xs 0;
      msg_length = be24_at xs 3;
      msg_type_id = at xs 6;
      msg_stream_id = 0;
    }
    else if fmt == 2
    then record { timestamp = be24_at xs 0; msg_length = 0; msg_type_id = 0; msg_stream_id = 0 }
    else record { timestamp = 0; msg_length = 0; msg_type_id = 0; msg_stream_id = 0 }

abbrev pub decode_ext : Bool → ℕ → List ℕ → ℕ
decode_ext b timestamp xs = if b then ntoh32 xs else timestamp

-- The header that starts at `xs`, behind the basic header's `header_size` bytes.
abbrev pub header_in : Plan → List ℕ → Header
header_in p xs =
    let h = decode_header p.fmt (drop p.header_size xs) in
    record h {
      timestamp = decode_ext p.ext_ts h.timestamp (drop (p.header_size + field_bytes p.fmt) xs);
    }

Parses-fields {ℓ} :
    {A : Type ℓ} (n : ℕ) (xs : List ℕ) (f : List ℕ → A) (a : A)
    → n ≤ length xs
    → f (take n xs) ≡ a
    → Parses (map_err ErrorCode.io (read n) >>= λ mh. pure (f mh)) xs a (drop n xs)
Parses-fields n xs f a h e =
    Parses-bind _ _ xs (drop n xs) (drop n xs) (take n xs) a
      (Parses-map_err ErrorCode.io (read n) xs (drop n xs) (take n xs) (Parses-take n xs h))
      (rw e (Parses-pure a (drop n xs)))

at-take : (i n : ℕ) (xs : List ℕ) → i < n → at (take n xs) i ≡ at xs i
at-take i n xs h = get_or-take i n xs 0 h

Parses-read_header :
    (fmt : ℕ) (xs : List ℕ)
    → fmt ≤ 3
    → field_bytes fmt ≤ length xs
    → Parses (read_header fmt) xs (decode_header fmt xs) (drop (field_bytes fmt) xs)
unfolding read_header
Parses-read_header zero xs k h = Parses-fields 11 xs _ _ h cc (
  at-take 0 11 xs (omega arith),
  at-take 1 11 xs (omega arith),
  at-take 2 11 xs (omega arith),
  at-take 3 11 xs (omega arith),
  at-take 4 11 xs (omega arith),
  at-take 5 11 xs (omega arith),
  at-take 6 11 xs (omega arith),
  at-take 7 11 xs (omega arith),
  at-take 8 11 xs (omega arith),
  at-take 9 11 xs (omega arith),
  at-take 10 11 xs (omega arith),
)
Parses-read_header (suc zero) xs k h = Parses-fields 7 xs _ _ h cc (
  at-take 0 7 xs (omega arith),
  at-take 1 7 xs (omega arith),
  at-take 2 7 xs (omega arith),
  at-take 3 7 xs (omega arith),
  at-take 4 7 xs (omega arith),
  at-take 5 7 xs (omega arith),
  at-take 6 7 xs (omega arith),
)
Parses-read_header (suc (suc zero)) xs k h =
    Parses-fields 3 xs _ _ h cc
      (at-take 0 3 xs (omega arith), at-take 1 3 xs (omega arith), at-take 2 3 xs (omega arith))
Parses-read_header (suc (suc (suc zero))) xs k h = Parses-pure _ xs
Parses-read_header (suc (suc (suc (suc n)))) xs k h = absurd (omega arith)

Parses-read_ext :
    (b : Bool) (t : ℕ) (xs : List ℕ)
    → ext_bytes b ≤ length xs
    → Parses (read_ext_timestamp b t) xs (decode_ext b t xs) (drop (ext_bytes b) xs)
unfolding read_ext_timestamp ntoh32
Parses-read_ext true t xs h = Parses-fields 4 xs _ _ h (
    cc (
      at-take 0 4 xs (omega arith),
      at-take 1 4 xs (omega arith),
      at-take 2 4 xs (omega arith),
      at-take 3 4 xs (omega arith),
    ))
Parses-read_ext false t xs h = Parses-pure t xs

-- Phase 2 takes the header off an input that has all of it.
pub Parses-consume_header :
    (p : Plan) (xs : List ℕ)
    → p.fmt ≤ 3
    → p.header_size + field_bytes p.fmt + ext_bytes p.ext_ts ≤ length xs
    → Parses
        (consume_header p)
        xs
        (header_in p xs)
        (drop (p.header_size + field_bytes p.fmt + ext_bytes p.ext_ts) xs)
unfolding consume_header
Parses-consume_header p xs k h =
    let ys : List ℕ = drop p.header_size xs in
    let zs : List ℕ = drop (p.header_size + field_bytes p.fmt) xs in
    let ez : drop (field_bytes p.fmt) ys ≡ zs = drop-drop (field_bytes p.fmt) p.header_size xs in
    let ew : drop (ext_bytes p.ext_ts) zs
        ≡ drop (p.header_size + field_bytes p.fmt + ext_bytes p.ext_ts) xs =
      drop-drop (ext_bytes p.ext_ts) (p.header_size + field_bytes p.fmt) xs in
    let timed : Header → ℕ → M Buffer Header = λ h t. pure (record h { timestamp = t }) in
    let fields : Header → M Buffer Header =
      λ h. read_ext_timestamp p.ext_ts h.timestamp >>= timed h in
    Parses-bind (pass p.header_size) (λ _. read_header p.fmt >>= fields) xs ys _ tt _
      (Parses-pass p.header_size xs)
      (Parses-bind (read_header p.fmt) fields ys zs _ (decode_header p.fmt ys) _
        (subst (Parses (read_header p.fmt) ys (decode_header p.fmt ys)) ez
          (Parses-read_header p.fmt ys k (omega (arith, length-drop p.header_size xs))))
        (Parses-bind _ (timed (decode_header p.fmt ys)) zs _ _
          (decode_ext p.ext_ts (decode_header p.fmt ys).timestamp zs) _
          (subst (Parses (read_ext_timestamp p.ext_ts (decode_header p.fmt ys).timestamp) zs _) ew (
            Parses-read_ext p.ext_ts (decode_header p.fmt ys).timestamp zs
              (omega (arith, length-drop (p.header_size + field_bytes p.fmt) xs))))
          (Parses-pure _ _)))
