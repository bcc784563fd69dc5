-- ===== src/Chunk/Reader/Peek.antt =====
-- src/chunk/reader.rs: phase 1 of `chunk_read`, which consumes nothing.
use librtmp.Common.{
  ℕ, ◌+◌, ◌-◌, ◌*◌, ◌/◌, ◌%◌, ◌^◌, min, Bool, true, false, not, ◌&&◌, ◌||◌, Option, none, some,
  List, ltb, leb, ◌==◌, if◌then◌else◌,
}
use librtmp.Common.Result.{ErrorCode}
use librtmp.Bytes.{at}
use librtmp.Buffer.{Buffer, available, peek}
use librtmp.Chunk.State.{ChunkStream, ChunkRegistry, get, map_or, can_get_or_create}

-- An early return is `wait`, for `Ok(0)`, or `reject`, for an error.
pub data Peeked {ℓ} (A : Type ℓ) : Type ℓ where
  go : A → Peeked A
  wait : Peeked A
  reject : ErrorCode → Peeked A

infixl 5 ◌>>=◌ ◌>>◌
abbrev pub ◌>>=◌ {ℓ κ} : {A : Type ℓ} {B : Type κ} → Peeked A → (A → Peeked B) → Peeked B
go a >>= f = f a
wait >>= f = wait
reject e >>= f = reject e

abbrev pub ◌>>◌ {ℓ} : {B : Type ℓ} → Peeked (Unit {0}) → Peeked B → Peeked B
m >> k = m >>= λ _. k

abbrev pub wait_if : Bool → Peeked (Unit {0})
wait_if true = wait
wait_if false = go tt

abbrev pub reject_if : Bool → Peeked (Unit {0})
reject_if true = reject ErrorCode.chunk
reject_if false = go tt

-- `reg.get(csid).is_some_and(f)`
abbrev pub is_some_and : Option ChunkStream → (ChunkStream → Bool) → Bool
is_some_and none f = false
is_some_and (some s) f = f s

-- `reg.get(csid).map(f).ok_or(ErrorCode::Chunk)?`
abbrev pub field {ℓ} : {A : Type ℓ} → (ChunkStream → A) → Option ChunkStream → Peeked A
field f none = reject ErrorCode.chunk
field f (some s) = go (f s)

-- The chunk-stream id and the size of the basic header.
unfoldable pub basic_header : List ℕ → ℕ → Peeked (ℕ × ℕ)
basic_header bytes avail =
    let csid_low = at bytes 0 % 64 in
    if csid_low == 0
    then (do wait_if (ltb avail 2); go (at bytes 1 + 64, 2))
    else if csid_low == 1
    then (do wait_if (ltb avail 3); go (at bytes 1 + at bytes 2 * 2 ^ 8 + 64, 3))
    else go (csid_low, 1)

unfoldable pub msg_field_size : ℕ → Peeked ℕ
msg_field_size fmt =
    if fmt == 0
    then go 11
    else if fmt == 1
    then go 7
    else if fmt == 2
    then go 3
    else if fmt == 3
    then go 0
    else reject ErrorCode.chunk

abbrev pub be24_at : List ℕ → ℕ → ℕ
be24_at bytes off = at bytes off * 2 ^ 16 + at bytes (off + 1) * 2 ^ 8 + at bytes (off + 2)

-- Whether an extended timestamp follows: the header says so, or the stream's last header did.
unfoldable pub ext_ts : List ℕ → ℕ → ℕ → Option ChunkStream → Peeked Bool
ext_ts bytes fmt header_size stream = do
  let from_header = leb fmt 2 && leb 0xFFFFFF (be24_at bytes header_size)
  from_stream ← if fmt == 3 then field (λ s. s.type0_ext_ts) stream else go false
  go (from_header || from_stream)

unfoldable pub effective_length : List ℕ → ℕ → ℕ → Option ChunkStream → Peeked ℕ
effective_length bytes fmt header_size stream =
    if leb fmt 1
    then go (be24_at bytes (header_size + 3))
    else field (λ s. s.type0_msg_length) stream

-- The payload bytes that this chunk carries.
unfoldable pub part_length : ChunkRegistry → ℕ → ℕ → Option ChunkStream → ℕ
part_length reg fmt eff_len stream =
    let chunk_sz = map_or reg.default_size (λ s. s.chunk_size) stream in
    let done = map_or 0 (λ s. if leb fmt 1 then 0 else s.reassembly_bytes_read) stream in
    min (eff_len - done) chunk_sz

-- The check of the connection's reassembly budget, made in phase 1 and again in phase 3.
unfoldable pub budget_exceeded : ChunkRegistry → ℕ → Option ChunkStream → ℕ → Bool
budget_exceeded reg fmt stream to_read =
    let replaced = if leb fmt 1 then map_or 0 (λ s. available s.reassembly_buf) stream else 0 in
    ltb 0 to_read && ltb reg.max_reassembly_bytes (reg.reassembly_bytes_in_use - replaced + to_read)

-- What phase 1 found: the chunk is there in full.
pub record Plan : Type 0 where
  pub fmt : ℕ
  pub csid : ℕ
  pub header_size : ℕ
  pub ext_ts : Bool
  pub to_read : ℕ

unfoldable pub peek_stream :
    List ℕ → ℕ → ChunkRegistry → ℕ → ℕ → ℕ → ℕ → Option ChunkStream → Peeked Plan
peek_stream bytes avail reg fmt csid header_size base_needed stream = do
  reject_if (leb 2 fmt && map_or true (λ _. false) stream)
  reject_if (fmt == 2 && is_some_and stream (λ s. not (s.reassembly_bytes_read == 0)))
  ext ← ext_ts bytes fmt header_size stream
  let total_header_needed = base_needed + (if ext then 4 else 0)
  wait_if (ltb avail total_header_needed)
  eff_len ← effective_length bytes fmt header_size stream
  reject_if (ltb reg.max_msg_length eff_len)
  let to_read = part_length reg fmt eff_len stream
  reject_if (budget_exceeded reg fmt stream to_read)
  reject_if ((fmt == 2 || fmt == 3) && is_some_and stream (λ s. not s.has_message_header))
  reject_if (not (can_get_or_create reg csid))
  wait_if (ltb avail (total_header_needed + to_read))
  go (record { fmt = fmt; csid = csid; header_size = header_size; ext_ts = ext; to_read = to_read })

-- Phase 1 on the unread bytes.
unfoldable pub peek_bytes : List ℕ → ℕ → ChunkRegistry → Peeked Plan
peek_bytes bytes avail reg = do
  wait_if (ltb avail 1)
  let fmt = at bytes 0 / 2 ^ 6
  (csid, header_size) ← basic_header bytes avail
  field_size ← msg_field_size fmt
  wait_if (ltb avail (header_size + field_size))
  peek_stream bytes avail reg fmt csid header_size (header_size + field_size) (get reg csid)

unfoldable pub peek_chunk : Buffer → ChunkRegistry → Peeked Plan
peek_chunk b reg = peek_bytes (peek b) (available b) reg
