-- ===== src/Handshake/Digest/Verify.antt =====
-- src/handshake.rs: the digest in S1 is one that the client finds.
use librtmp.Common.{
  ℕ, ◌+◌, ◌-◌, ◌≤◌, ◌<◌, ◌≡◌, refl, sym, ap, ◌∙◌, true, some, List, [], ◌∷◌, ◌++◌, arith, ==_refl,
  length, take, drop, length-take_le, take-append, drop-append, drop-drop, get_or-take,
}
use librtmp.Bytes.{at, bytes_eq}
use librtmp.Buffer.{splice, slice}
use librtmp.Buffer.Wf.{length-splice}
use librtmp.Sha256.{hmac_sha256}
use librtmp.Sha256.Length.{length-hmac_sha256}
use librtmp.Handshake.Random.{Moment, fill_random, length-fill_random}
use librtmp.Handshake.Digest.{
  digest_offset, digest_without, digest_at, unsigned_s1, digest_s1, digest_s2, fms_key_text,
  fms_full_key,
}

module _ (xs : List ℕ) (i : ℕ) (d : List ℕ) (h : i + length d ≤ length xs) where
  front_length : length (take i xs) ≡ i
  front_length = length-take_le i xs (omega arith)

  take-splice : take i (splice xs i d) ≡ take i xs
  take-splice = take-append i (take i xs) _ (sym front_length)

  behind_front : drop i (splice xs i d) ≡ d ++ drop (i + length d) xs
  behind_front = drop-append i (take i xs) _ (sym front_length)

  drop-splice : drop (i + length d) (splice xs i d) ≡ drop (i + length d) xs
  drop-splice =
      sym (drop-drop (length d) i (splice xs i d))
      ∙ ap (drop (length d)) behind_front
      ∙ drop-append (length d) d _ refl

  slice_filled : slice (splice xs i d) i (i + length d) ≡ d
  slice_filled =
      let e : i + length d - i ≡ length d = omega arith in
      rw e (ap (take (length d)) behind_front ∙ take-append (length d) d _ refl)

  at-splice : (k : ℕ) → k < i → at (splice xs i d) k ≡ at xs k
  at-splice k lt =
      sym (get_or-take k i (splice xs i d) 0 lt)
      ∙ ap (λ ys. at ys k) take-splice
      ∙ get_or-take k i xs 0 lt

bytes_eq_refl : (xs : List ℕ) → bytes_eq xs xs ≡ true
bytes_eq_refl [] = refl
bytes_eq_refl (x ∷ xs) = rw (==_refl x) (bytes_eq_refl xs)

length-unsigned_s1 : (t : ℕ) (m : Moment) → length (unsigned_s1 t m) ≡ 1536
unfolding unsigned_s1
length-unsigned_s1 t m = omega (arith, length-fill_random m 1528)

-- A place for the digest block that leaves room for the digest.
abbrev pub Base : ℕ → Type 0
Base base = base + 4 + 727 + 32 ≤ 1536

offset_room :
    (xs : List ℕ) (base : ℕ)
    → Base base
    → (base + 4 ≤ digest_offset xs base) × (digest_offset xs base + 32 ≤ 1536)
unfolding digest_offset
offset_room xs base h = (omega arith, omega arith)

digest_offset-splice :
    (xs : List ℕ) (base : ℕ) (d : List ℕ) (i : ℕ) (h : i + length d ≤ length xs)
    → base + 4 ≤ i
    → digest_offset (splice xs i d) base ≡ digest_offset xs base
unfolding digest_offset
digest_offset-splice xs base d i h k =
    rw
      (
        at-splice xs i d h base (omega arith),
        at-splice xs i d h (base + 1) (omega arith),
        at-splice xs i d h (base + 2) (omega arith),
        at-splice xs i d h (base + 3) (omega arith),
      )
      refl

-- A digest that is filled in where the block selects, of the bytes without it, is found there.
module _ (u key d : List ℕ) (base off : ℕ) (place : digest_offset u base ≡ off)
    (len : length d ≡ 32) (room : off + length d ≤ length u) (low : base + 4 ≤ off)
    (own : digest_without u off key ≡ d) where
  abbrev s : List ℕ
  s = splice u off d

  same_place : digest_offset s base ≡ off
  same_place = digest_offset-splice u base d off room low ∙ place

  same_digest : digest_without s off key ≡ d
  unfolding digest_without
  same_digest =
      let behind : drop (off + 32) s ≡ drop (off + 32) u =
        ap (λ n. drop (off + n) s) (sym len)
        ∙ drop-splice u off d room
        ∙ ap (λ n. drop (off + n) u) len in
      (λ i. hmac_sha256 key (take-splice u off d room i ∷ behind i ∷ [])) ∙ own

  found_there : slice s off (off + 32) ≡ d
  found_there = ap (λ n. slice s off (off + n)) (sym len) ∙ slice_filled u off d room

  digest_at_lem : digest_at key s base ≡ some (base, d)
  unfolding digest_at
  digest_at_lem = rw (same_place, same_digest, found_there, bytes_eq_refl d) refl

module _ (base t : ℕ) (m : Moment) (h : Base base) where
  abbrev u1 : List ℕ
  u1 = unsigned_s1 t m

  abbrev d1 : List ℕ
  d1 = digest_without u1 (digest_offset u1 base) fms_key_text

  length-d1 : length d1 ≡ 32
  unfolding digest_without
  length-d1 = length-hmac_sha256 fms_key_text _

  room1 : digest_offset u1 base + length d1 ≤ length u1
  room1 = let (_, k) = offset_room u1 base h in omega (arith, k, length-d1, length-unsigned_s1 t m)

  pub length-digest_s1 : length (digest_s1 base t m) ≡ 1536
  unfolding digest_s1
  length-digest_s1 = length-splice u1 d1 (digest_offset u1 base) room1 ∙ length-unsigned_s1 t m

  -- A client that checks the server's first packet the way that the server checks the client's, under
  -- the key of the server, finds a digest in the block where it was put: filling it in has moved neither the place that the block
  -- selects nor the bytes that the digest is of. The block leaves room for the digest behind it.
  pub digest_s1-verifies :
      (found : List ℕ) × (digest_at fms_key_text (digest_s1 base t m) base ≡ some (base, found))
  unfolding digest_s1
  digest_s1-verifies = (
    d1,
    digest_at_lem u1 fms_key_text d1 base (digest_offset u1 base) refl length-d1 room1
        (let (k, _) = offset_room u1 base h in k) refl,
  )

pub length-digest_s2 : (c1_digest : List ℕ) (m : Moment) → length (digest_s2 c1_digest m) ≡ 1536
unfolding digest_s2
length-digest_s2 c1_digest m =
    length-splice (fill_random m 1536)
      (hmac_sha256 (hmac_sha256 fms_full_key (c1_digest ∷ []))
        (take 1504 (fill_random m 1536) ∷ []))
      1504
      (omega (
        arith,
        length-fill_random m 1536,
        length-hmac_sha256 (hmac_sha256 fms_full_key (c1_digest ∷ []))
            (take 1504 (fill_random m 1536) ∷ []),
      ))
    ∙ length-fill_random m 1536
