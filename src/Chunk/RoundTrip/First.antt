-- ===== src/Chunk/RoundTrip/First.antt =====
-- src/chunk/reader.rs: phase 1 on the first chunk of a message, and on a chunk that continues it.
use librtmp.Common.{ℕ, ◌+◌, ◌/◌, ◌^◌, ◌≤◌, ◌≡◌, Bool, true, false, Option, some, List, arith, leb}
use librtmp.Bytes.{at}
use librtmp.Chunk.State.{ChunkStream, ChunkRegistry, get, can_get_or_create}
use librtmp.Chunk.Reader.Peek.{
  Plan, Peeked, go, wait, reject, ◌>>=◌, ◌>>◌, be24_at, peek_stream, peek_bytes, msg_field_size,
  ext_ts, effective_length, part_length, budget_exceeded,
}
use librtmp.Chunk.Reader.Peek
use librtmp.Chunk.Reader.Facts.{field_bytes, ext_bytes}

module _ (xs : List ℕ) (avail : ℕ) (reg : ChunkRegistry) (csid hs : ℕ) where
  -- The plan of a chunk of `n` bytes of payload.
  abbrev pub plan : ℕ → Bool → ℕ → Plan
  plan fmt ext n = record { fmt = fmt; csid = csid; header_size = hs; ext_ts = ext; to_read = n }

  pub stream_first :
      (o : Option ChunkStream) (t n k : ℕ) (ext : Bool)
      → be24_at xs hs ≡ t
      → leb 0xFFFFFF t ≡ ext
      → be24_at xs (hs + 3) ≡ n
      → n ≤ reg.max_msg_length
      → part_length reg 0 n o ≡ k
      → budget_exceeded reg 0 o k ≡ false
      → can_get_or_create reg csid ≡ true
      → hs + 11 + ext_bytes ext + k ≤ avail
      → peek_stream xs avail reg 0 csid hs (hs + 11) o ≡ go (plan 0 ext k)
  unfolding peek_stream ext_ts effective_length
  stream_first o t n k ext et ee en short ek budget can fits = ground arith

  pub stream_next :
      (s : ChunkStream) (n k : ℕ) (ext : Bool)
      → s.type0_msg_length ≡ n
      → s.has_message_header ≡ true
      → s.type0_ext_ts ≡ ext
      → n ≤ reg.max_msg_length
      → part_length reg 3 n (some s) ≡ k
      → budget_exceeded reg 3 (some s) k ≡ false
      → can_get_or_create reg csid ≡ true
      → hs + ext_bytes ext + k ≤ avail
      → peek_stream xs avail reg 3 csid hs (hs + 0) (some s) ≡ go (plan 3 ext k)
  unfolding peek_stream ext_ts effective_length
  stream_next s n k ext en head ee short ek budget can fits = ground arith

-- The bytes behind the basic header have been reached.
pub bytes_from :
    (xs : List ℕ) (avail : ℕ) (reg : ChunkRegistry) (fmt csid hs : ℕ) (r : Peeked Plan)
    → at xs 0 / 2 ^ 6 ≡ fmt
    → fmt ≤ 3
    → Peek.basic_header xs avail ≡ go (csid, hs)
    → 1 ≤ avail
    → hs + field_bytes fmt ≤ avail
    → peek_stream xs avail reg fmt csid hs (hs + field_bytes fmt) (get reg csid) ≡ r
    → peek_bytes xs avail reg ≡ r
unfolding peek_bytes msg_field_size
bytes_from xs avail reg fmt csid hs r ef small eh one fits er = ground arith
