-- ===== src/Sha256/Length.antt =====
-- src/sha256.rs: a digest has 32 bytes.
use librtmp.Common.{ℕ, ◌≡◌, refl, List, length}
use librtmp.Sha256.{Sha256, finalize, hmac_sha256}

length-finalize : (h : Sha256) → length (finalize h) ≡ 32
unfolding finalize
length-finalize h = refl

pub length-hmac_sha256 :
    (key : List ℕ) (parts : List (List ℕ)) → length (hmac_sha256 key parts) ≡ 32
unfolding hmac_sha256
length-hmac_sha256 key parts = length-finalize _
