-- ===== src/Amf/Amf3/Tests.antt =====
-- src/amf/amf3.rs: an integer of three bytes and a short string.
use librtmp.Common.{ℕ, List, [], ◌∷◌}
use librtmp.Buffer.{Buffer, with_capacity}

abbrev empty : Buffer
empty = with_capacity 0

abbrev abc : List ℕ
abc = 97 ∷ 98 ∷ 99 ∷ []
