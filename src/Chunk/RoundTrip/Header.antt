-- ===== src/Chunk/RoundTrip/Header.antt =====
-- src/chunk/reader.rs on the basic headers of src/chunk/writer.rs.
use librtmp.Common.{
  ℕ, ◌+◌, ◌-◌, ◌*◌, ◌/◌, ◌%◌, ◌^◌, ◌≤◌, ◌≡◌, refl, sym, ap, ◌∙◌, inl, inr, List, ◌∷◌, ◌++◌, arith,
  ltb, length, Bool-cases, drop-append, ltb→lt, ltb→le,
}
use librtmp.Bytes.{at}
use librtmp.Chunk.Writer.{basic_header, rtmp_min_csid, rtmp_max_csid}
use librtmp.Chunk.Reader.Peek.{Peeked, go, be24_at}
use librtmp.Chunk.Reader.Peek
use librtmp.Chunk.Reader.Begin.{be24-drop}

one_byte :
    (a avail : ℕ) (ys : List ℕ) → 2 ≤ a % 64 → Peek.basic_header (a ∷ ys) avail ≡ go (a % 64, 1)
unfolding Peek.basic_header
one_byte a avail ys h = ground arith

two_bytes :
    (a b avail : ℕ) (ys : List ℕ)
    → a % 64 ≡ 0
    → 2 ≤ avail
    → Peek.basic_header (a ∷ b ∷ ys) avail ≡ go (b + 64, 2)
unfolding Peek.basic_header
two_bytes a b avail ys e h = ground arith

three_bytes :
    (a b c avail : ℕ) (ys : List ℕ)
    → a % 64 ≡ 1
    → 3 ≤ avail
    → Peek.basic_header (a ∷ b ∷ c ∷ ys) avail ≡ go (b + c * 2 ^ 8 + 64, 3)
unfolding Peek.basic_header
three_bytes a b c avail ys e h = ground arith

-- The header form is told from the low bits, and the id is the one that was written.
pub basic_header_read :
    (csid fmt avail : ℕ) (ys : List ℕ)
    → rtmp_min_csid ≤ csid
    → csid ≤ rtmp_max_csid
    → fmt ≤ 3
    → length (basic_header csid fmt) ≤ avail
    → (at (basic_header csid fmt ++ ys) 0 / 2 ^ 6 ≡ fmt)
      × (Peek.basic_header (basic_header csid fmt ++ ys) avail
          ≡ go (csid, length (basic_header csid fmt)))
      × (1 ≤ length (basic_header csid fmt))
unfolding basic_header
basic_header_read csid fmt avail ys lo hi f h = elim (Bool-cases (ltb csid 64)) [
  | inl one ↦
      let small = ltb→lt csid 64 one in
      let e : (fmt * 2 ^ 6 % 256 + csid) % 64 ≡ csid = omega arith in
      rw one (
        omega arith,
        one_byte (fmt * 2 ^ 6 % 256 + csid) avail ys (omega arith) ∙ ap (λ n. go (n, 1)) e,
        omega arith,
      )
  | inr more ↦
      let large = ltb→le csid 64 more in
      elim (Bool-cases (ltb csid 320)) [
        | inl two ↦
            let small = ltb→lt csid 320 two in
            let e : (csid - 64) % 256 + 64 ≡ csid = omega arith in
            let room : 2 ≤ avail = rw (more, two) at h in
            rw (more, two)
              (
                omega arith,
                two_bytes (fmt * 2 ^ 6 % 256) ((csid - 64) % 256) avail ys (omega arith) room
                    ∙ ap (λ n. go (n, 2)) e,
                omega arith,
              )
        | inr three ↦
            let e : (csid - 64) % 256 + (csid - 64) / 2 ^ 8 % 256 * 2 ^ 8 + 64 ≡ csid =
              omega arith in
            let room : 3 ≤ avail = rw (more, three) at h in
            rw (more, three)
              (
                omega arith,
                three_bytes (fmt * 2 ^ 6 % 256 + 1) ((csid - 64) % 256) ((csid - 64) / 2 ^ 8 % 256)
                      avail ys (omega arith) room
                    ∙ ap (λ n. go (n, 3)) e,
                omega arith,
              )
      ]
]

-- A field behind the basic header.
pub be24_behind : (xs ys : List ℕ) (k : ℕ) → be24_at (xs ++ ys) (length xs + k) ≡ be24_at ys k
be24_behind xs ys k =
    sym (be24-drop k (length xs) (xs ++ ys))
    ∙ ap (λ zs. be24_at zs k) (drop-append (length xs) xs ys refl)
