-- ===== src/Amf/Amf3/RoundTrip.antt =====
-- src/amf/amf3.rs: what is written is read back.
use librtmp.Common.{ℕ, List, length, set}
use librtmp.Buffer.{Buffer, splice}

-- What `read_string` stores in `out`.
abbrev pub stored : List ℕ → List ℕ → List ℕ
stored out s = set (splice out 0 s) (length s) 0
