-- ===== src/Bytes/Decide.antt =====
-- src/bytes.rs: a test that the elements of a list are bytes.
use librtmp.Common.{ℕ, ◌≡◌, Bool, true, ◌&&◌, List, [], ◌∷◌, arith, ltb, All}
use librtmp.Bytes.{IsByte}

abbrev pub all_bytes : List ℕ → Bool
all_bytes [] = true
all_bytes (x ∷ xs) = ltb x 256 && all_bytes xs

pub all_bytes_sound : (xs : List ℕ) → all_bytes xs ≡ true → All IsByte xs
all_bytes_sound [] e = tt
all_bytes_sound (x ∷ xs) e = (ground arith, all_bytes_sound xs (ground arith))
