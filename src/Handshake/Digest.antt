-- ===== src/Handshake/Digest.antt =====
-- src/handshake.rs: the digests in the packets.
pub mod Verify
use librtmp.Common.{
  ℕ, zero, suc, ◌+◌, ◌-◌, ◌%◌, Bool, true, false, ◌&&◌, Option, some, none, List, [], ◌∷◌, ◌++◌,
  ◌==◌, if◌then◌else◌, length, take, drop,
}
use librtmp.Bytes.{at, bytes_eq, to_be32}
use librtmp.Buffer.{splice, slice}
use librtmp.Sha256.{hmac_sha256}
use librtmp.Handshake.Random.{Moment, fill_random}

abbrev pub digest_len : ℕ
digest_len = 32

unfoldable pub handshake_key_tail : List ℕ
handshake_key_tail =
    0xF0 ∷ 0xEE ∷ 0xC2 ∷ 0x4A ∷ 0x80 ∷ 0x68 ∷ 0xBE ∷ 0xE8 ∷ 0x2E ∷ 0x00 ∷ 0xD0 ∷ 0xD1 ∷ 0x02 ∷ 0x9E
    ∷ 0x7E ∷ 0x57 ∷ 0x6E ∷ 0xEC ∷ 0x5D ∷ 0x2D ∷ 0x29 ∷ 0x80 ∷ 0x6F ∷ 0xAB ∷ 0x93 ∷ 0xB8 ∷ 0xE6
    ∷ 0x36 ∷ 0xCF ∷ 0xEB ∷ 0x31 ∷ 0xAE ∷ []

unfoldable pub fp_key_text : List ℕ
fp_key_text =
    71 ∷ 101 ∷ 110 ∷ 117 ∷ 105 ∷ 110 ∷ 101 ∷ 32 ∷ 65 ∷ 100 ∷ 111 ∷ 98 ∷ 101 ∷ 32 ∷ 70 ∷ 108 ∷ 97
    ∷ 115 ∷ 104 ∷ 32 ∷ 80 ∷ 108 ∷ 97 ∷ 121 ∷ 101 ∷ 114 ∷ 32 ∷ 48 ∷ 48 ∷ 49 ∷ []

unfoldable pub fms_key_text : List ℕ
fms_key_text =
    71 ∷ 101 ∷ 110 ∷ 117 ∷ 105 ∷ 110 ∷ 101 ∷ 32 ∷ 65 ∷ 100 ∷ 111 ∷ 98 ∷ 101 ∷ 32 ∷ 70 ∷ 108 ∷ 97
    ∷ 115 ∷ 104 ∷ 32 ∷ 77 ∷ 101 ∷ 100 ∷ 105 ∷ 97 ∷ 32 ∷ 83 ∷ 101 ∷ 114 ∷ 118 ∷ 101 ∷ 114 ∷ 32 ∷ 48
    ∷ 48 ∷ 49 ∷ []

abbrev pub server_digest_version : List ℕ
server_digest_version = 0x04 ∷ 0x05 ∷ 0x00 ∷ 0x01 ∷ []

unfoldable pub digest_offset : List ℕ → ℕ → ℕ
digest_offset buf base =
    base + 4 + (at buf base + at buf (base + 1) + at buf (base + 2) + at buf (base + 3)) % 728

unfoldable pub digest_without : List ℕ → ℕ → List ℕ → List ℕ
digest_without buf offset key =
    hmac_sha256 key (take offset buf ∷ drop (offset + digest_len) buf ∷ [])

-- The digest that stands in the block at `base`, if it is the one that belongs there.
unfoldable pub digest_at : List ℕ → List ℕ → ℕ → Option (ℕ × List ℕ)
unfolding digest_offset digest_without
digest_at key c1 base =
    let off = digest_offset c1 base in
    let found = slice c1 off (off + digest_len) in
    if bytes_eq (digest_without c1 off key) found then some (base, found) else none

abbrev or_else : Option (ℕ × List ℕ) → Option (ℕ × List ℕ) → Option (ℕ × List ℕ)
or_else none o = o
or_else (some d) o = some d

-- The `find_map` over the two block bases.
unfoldable pub find_c1_digest : List ℕ → Option (ℕ × List ℕ)
unfolding digest_at
find_c1_digest c1 = or_else (digest_at fp_key_text c1 772) (digest_at fp_key_text c1 8)

unfoldable pub fms_full_key : List ℕ
unfolding fms_key_text handshake_key_tail
fms_full_key = fms_key_text ++ handshake_key_tail

-- S1 before its digest is filled in.
unfoldable pub unsigned_s1 : ℕ → Moment → List ℕ
unsigned_s1 server_time m =
    to_be32 server_time ++ (server_digest_version ++ fill_random m (1536 - 8))

unfoldable pub digest_s1 : ℕ → ℕ → Moment → List ℕ
unfolding unsigned_s1 digest_offset digest_without
digest_s1 base server_time m =
    let s1 = unsigned_s1 server_time m in
    let off = digest_offset s1 base in splice s1 off (digest_without s1 off fms_key_text)

unfoldable pub digest_s2 : List ℕ → Moment → List ℕ
unfolding fms_full_key
digest_s2 c1_digest m =
    let s2 = fill_random m 1536 in
    let sign_key = hmac_sha256 fms_full_key (c1_digest ∷ []) in
    let sig_at = 1536 - digest_len in splice s2 sig_at (hmac_sha256 sign_key (take sig_at s2 ∷ []))

unfoldable pub build_digest_s1s2 : ℕ → List ℕ → ℕ → Moment → Moment → List ℕ × List ℕ
unfolding digest_s1 digest_s2
build_digest_s1s2 base c1_digest server_time m1 m2 =
    (digest_s1 base server_time m1, digest_s2 c1_digest m2)
