-- ===== src/Amf/Amf0/Atoms.antt =====
-- src/amf/amf0.rs: the fixed-size reads, and the skip of a counted string, on bytes that are there.
use librtmp.Common.{
  ℕ, ◌+◌, ◌*◌, ◌/◌, ◌%◌, ◌^◌, ◌<◌, ◌≡◌, refl, ap, ◌∙◌, subst, List, [], ◌∷◌, ◌++◌, arith, length,
  drop, le→ltb, length-append, drop-append,
}
use librtmp.Common.Result.{ErrorCode, ◌>>=◌, map_err, pure}
use librtmp.Bytes.{at, to_be16, to_be32, to_be64}
use librtmp.Buffer.{available, drain, read}
use librtmp.Buffer.Wf.{length-peek}
use librtmp.Buffer.Queue.{drain_lem}
use librtmp.Buffer.Codec.{Parses, Parses-bind, Parses-pure, Parses-map_err, Parses-read}
use librtmp.Amf.Amf0.Marker.{Amf0Type, marker, of_marker-marker}
use librtmp.Amf.Amf0.Read.{read_u8, read_u16, read_u32, read_double, read_type}
use librtmp.Amf.Amf0.Skip.{skip_bytes}

-- A read of `n` bytes whose value is computed from them.
pub Parses-field {ℓ} :
    {A : Type ℓ} (e : ErrorCode) (n : ℕ) (xs rest : List ℕ) (f : List ℕ → A)
    → n ≡ length xs
    → Parses (map_err e (read n) >>= λ b. pure (f b)) (xs ++ rest) (f xs) rest
Parses-field e n xs rest f h =
    Parses-bind _ _ (xs ++ rest) rest rest xs (f xs)
      (Parses-map_err e (read n) (xs ++ rest) rest xs (Parses-read n xs rest h))
      (Parses-pure (f xs) rest)

pub Parses-read_u8 : (x : ℕ) (rest : List ℕ) → Parses read_u8 (x ∷ rest) x rest
unfolding read_u8
Parses-read_u8 x rest = Parses-field ErrorCode.io 1 (x ∷ []) rest (λ b. at b 0) refl

pub Parses-read_u16 :
    (v : ℕ) (rest : List ℕ) → v < 2 ^ 16 → Parses read_u16 (to_be16 v ++ rest) v rest
unfolding read_u16
Parses-read_u16 v rest h =
    let e : v / 2 ^ 8 % 256 * 2 ^ 8 + v % 256 ≡ v = omega arith in
    subst (λ a. Parses read_u16 (to_be16 v ++ rest) a rest) e
      (Parses-field ErrorCode.io 2 (to_be16 v) rest (λ b. at b 0 * 2 ^ 8 + at b 1) refl)

pub Parses-read_u32 :
    (v : ℕ) (rest : List ℕ) → v < 2 ^ 32 → Parses read_u32 (to_be32 v ++ rest) v rest
unfolding read_u32
Parses-read_u32 v rest h =
    let e : v / 2 ^ 24 % 256 * 2 ^ 24
          + v / 2 ^ 16 % 256 * 2 ^ 16
          + v / 2 ^ 8 % 256 * 2 ^ 8
          + v % 256
        ≡ v =
      omega arith in
    subst (λ a. Parses read_u32 (to_be32 v ++ rest) a rest) e
      (Parses-field ErrorCode.io 4 (to_be32 v) rest
        (λ b. at b 0 * 2 ^ 24 + at b 1 * 2 ^ 16 + at b 2 * 2 ^ 8 + at b 3) refl)

double_bytes :
    (v : ℕ)
    → v < 2 ^ 64
    → v / 2 ^ 56 % 256 * 2 ^ 56
        + v / 2 ^ 48 % 256 * 2 ^ 48
        + v / 2 ^ 40 % 256 * 2 ^ 40
        + v / 2 ^ 32 % 256 * 2 ^ 32
        + v / 2 ^ 24 % 256 * 2 ^ 24
        + v / 2 ^ 16 % 256 * 2 ^ 16
        + v / 2 ^ 8 % 256 * 2 ^ 8
        + v % 256
      ≡ v
double_bytes v h = omega arith

pub Parses-read_double :
    (v : ℕ) (rest : List ℕ) → v < 2 ^ 64 → Parses read_double (to_be64 v ++ rest) v rest
unfolding read_double
Parses-read_double v rest h =
    subst (λ a. Parses read_double (to_be64 v ++ rest) a rest) (double_bytes v h)
      (Parses-field ErrorCode.io 8 (to_be64 v) rest
        (λ b.
          at b 0 * 2 ^ 56
          + at b 1 * 2 ^ 48
          + at b 2 * 2 ^ 40
          + at b 3 * 2 ^ 32
          + at b 4 * 2 ^ 24
          + at b 5 * 2 ^ 16
          + at b 6 * 2 ^ 8
          + at b 7)
        refl)

pub Parses-read_type : (ty : Amf0Type) (rest : List ℕ) → Parses read_type (marker ty ∷ rest) ty rest
unfolding read_type
Parses-read_type ty rest =
    Parses-bind _ _ (marker ty ∷ rest) rest rest (marker ty) ty (Parses-read_u8 (marker ty) rest)
      (rw (of_marker-marker ty) (Parses-pure ty rest))

-- A skip of `n` bytes that are there.
pub Parses-skip_bytes :
    (n : ℕ) (xs rest : List ℕ) → n ≡ length xs → Parses (skip_bytes n) (xs ++ rest) tt rest
unfolding skip_bytes
Parses-skip_bytes n xs rest h b v e =
    let (w, seen, own) = drain_lem n b v in
    (
      drain n b,
      rw (
          le→ltb (available b) n
            (omega (arith, length-peek b v, ap length e, length-append xs rest))),
      w,
      seen ∙ ap (drop n) e ∙ drop-append n xs rest h,
      own,
    )
