-- ===== src/Sha256/Tests.antt =====
-- src/sha256.rs: the digest of "abc", from FIPS 180-4.
use librtmp.Common.{◌≡◌, refl, [], ◌∷◌}
use librtmp.Sha256.{sha256}

abc :
    sha256 ((97 ∷ 98 ∷ 99 ∷ []) ∷ [])
    ≡ 0xba ∷ 0x78 ∷ 0x16 ∷ 0xbf ∷ 0x8f ∷ 0x01 ∷ 0xcf ∷ 0xea ∷ 0x41 ∷ 0x41 ∷ 0x40 ∷ 0xde ∷ 0x5d
      ∷ 0xae ∷ 0x22 ∷ 0x23 ∷ 0xb0 ∷ 0x03 ∷ 0x61 ∷ 0xa3 ∷ 0x96 ∷ 0x17 ∷ 0x7a ∷ 0x9c ∷ 0xb4 ∷ 0x10
      ∷ 0xff ∷ 0x61 ∷ 0xf2 ∷ 0x00 ∷ 0x15 ∷ 0xad ∷ []
unfolding sha256 librtmp.Sha256.finalize librtmp.Sha256.update librtmp.Sha256.absorb
    librtmp.Sha256.absorb_filled librtmp.Sha256.compress librtmp.Sha256.new librtmp.Sha256.initial
    librtmp.Sha256.update_all librtmp.Sha256.compress_round librtmp.Sha256.compress_rounds
    librtmp.Sha256.extend librtmp.Sha256.next_word librtmp.Sha256.block_words
    librtmp.Sha256.round_constants librtmp.Sha256.add_states librtmp.Bytes.ntoh32
abc = refl
