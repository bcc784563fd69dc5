-- ===== src/Buffer.antt =====
-- src/buffer.rs: the growable byte buffer with a write cursor and a read cursor.
-- A `Vec<u8>` is a list of numbers; its length is the buffer's capacity. A slice that is out of
-- range panics in the source; Buffer/Room shows that no write is, and Buffer/Queue that no read is.
pub mod Codec
pub mod Wf
pub mod Room
pub mod New
pub mod Queue
pub mod Refine
mod Tests
use librtmp.Common.{
  ℕ, zero, suc, ◌+◌, ◌-◌, ◌*◌, ◌/◌, ◌^◌, min, max, Bool, true, false, not, ◌&&◌, ◌||◌, List, [],
  ◌∷◌, ◌++◌, ltb, leb, ◌==◌, if◌then◌else◌, length, take, drop, replicate,
}
use librtmp.Common.Result.{Result, ok, err, ErrorCode, M, ◌>>=◌, ◌>>◌, pure, fail_if}

abbrev pub buffer_max_size : ℕ
buffer_max_size = 64 * 1024 * 1024

abbrev pub buffer_initial_size : ℕ
buffer_initial_size = 4096

abbrev pub buffer_reset_capacity : ℕ
buffer_reset_capacity = buffer_initial_size

abbrev pub buffer_grow_factor : ℕ
buffer_grow_factor = 2

-- `bytes` is the field `data`.
pub record Buffer : Type 0 where
  pub bytes : List ℕ
  pub size : ℕ
  pub read_pos : ℕ
  pub owned : Bool

unfoldable pub with_capacity : ℕ → Buffer
with_capacity capacity = record {
  bytes = replicate capacity 0;
  size = 0;
  read_pos = 0;
  owned = true;
}

unfoldable pub new : Buffer
new = with_capacity buffer_initial_size

unfoldable pub from_slice : List ℕ → Buffer
from_slice data' = record { bytes = data'; size = length data'; read_pos = 0; owned = true }

unfoldable pub from_static : List ℕ → Buffer
from_static data' = record { bytes = data'; size = length data'; read_pos = 0; owned = false }

unfoldable pub available : Buffer → ℕ
available b = b.size - b.read_pos

unfoldable pub space : Buffer → ℕ
space b = length b.bytes - b.size

-- `&data[from..to]`
abbrev pub slice : List ℕ → ℕ → ℕ → List ℕ
slice xs from to = take (to - from) (drop from xs)

-- `data[at..at + src.len()].copy_from_slice(src)`
abbrev pub splice : List ℕ → ℕ → List ℕ → List ℕ
splice xs at src = take at xs ++ (src ++ drop (at + length src) xs)

unfoldable pub peek : Buffer → List ℕ
peek b = slice b.bytes b.read_pos b.size

unfoldable pub capacity : Buffer → ℕ
capacity b = length b.bytes

-- `usize::saturating_mul` on 64 bits.
abbrev pub saturating_mul : ℕ → ℕ → ℕ
saturating_mul a b = min (a * b) (2 ^ 64 - 1)

-- The `while` of `ensure_capacity`; its fuel counts the doublings.
grow : ℕ → ℕ → ℕ → ℕ
grow zero needed new_cap = new_cap
grow (suc fuel) needed new_cap =
    let doubled = saturating_mul new_cap buffer_grow_factor in
    let rest = grow fuel needed doubled in
    if ltb new_cap needed
    then (if ltb buffer_max_size doubled then buffer_max_size else rest)
    else new_cap

-- 4096 * 2 ^ 14 is `buffer_max_size`, so 14 doublings and the last test are enough.
abbrev grow_fuel : ℕ
grow_fuel = 15

-- `Vec::resize(new_cap, 0)`
abbrev pub resize : List ℕ → ℕ → List ℕ
resize xs n = take n xs ++ replicate (n - length xs) 0

unfoldable pub ensure_capacity : ℕ → M Buffer (Unit {0})
unfolding grow
ensure_capacity needed b =
    if leb needed (length b.bytes)
    then (b, ok tt)
    else if not b.owned
    then (b, err ErrorCode.internal)
    else if ltb buffer_max_size needed
    then (b, err ErrorCode.internal)
    else (
      record b {
        bytes = resize b.bytes (grow grow_fuel needed (max (length b.bytes) buffer_initial_size));
      },
      ok tt,
    )

unfoldable pub compact : Buffer → Buffer
compact b =
    if b.read_pos == 0
    then b
    else if leb b.size b.read_pos
    then record b { size = 0; read_pos = 0 }
    else record b {
      bytes = splice b.bytes 0 (slice b.bytes b.read_pos b.size);
      size = b.size - b.read_pos;
      read_pos = 0;
    }

-- A buffer that is read to its end starts over.
unfoldable pub rewind : Buffer → Buffer
rewind b =
    if ltb 0 b.read_pos && leb b.size b.read_pos then record b { size = 0; read_pos = 0 } else b

-- `make_room` behind its rewind.
unfoldable pub make_room_at : ℕ → M Buffer (Unit {0})
make_room_at additional b =
    if ltb buffer_max_size additional || ltb (buffer_max_size - additional) (available b)
    then (b, err ErrorCode.internal)
    else if leb additional (space b)
    then (b, ok tt)
    else (let c = compact b in ensure_capacity (c.size + additional) c)

unfoldable pub make_room : ℕ → M Buffer (Unit {0})
unfolding make_room_at rewind
make_room additional b = make_room_at additional (rewind b)

unfoldable pub reserve : ℕ → M Buffer (Unit {0})
reserve additional = make_room additional

-- The copy of `write`, once there is room.
abbrev pub append_bytes : List ℕ → Buffer → Buffer
append_bytes xs b = record b { bytes = splice b.bytes b.size xs; size = b.size + length xs }

unfoldable pub write : List ℕ → M Buffer ℕ
write [] b = (b, ok 0)
write (x ∷ xs) b =
    (make_room (length (x ∷ xs)) >>= λ _ c. (append_bytes (x ∷ xs) c, ok (length (x ∷ xs)))) b

-- `read(&mut out)` for an `out` of `n` bytes; what it copies to `out` is the result.
unfoldable pub read : ℕ → M Buffer (List ℕ)
read n b =
    if ltb b.size (b.read_pos + n)
    then (b, err ErrorCode.io)
    else (record b { read_pos = b.read_pos + n }, ok (slice b.bytes b.read_pos (b.read_pos + n)))

unfoldable pub reset : Buffer → Buffer
reset b =
    if b.owned && ltb buffer_reset_capacity (length b.bytes)
    then record b { bytes = take buffer_reset_capacity b.bytes; size = 0; read_pos = 0 }
    else record b { size = 0; read_pos = 0 }

unfoldable pub release_excess : ℕ → Buffer → Buffer
release_excess keep b =
    if not b.owned || leb (length b.bytes) keep || ltb (keep / 2) (available b)
    then b
    else (let c = compact b in record c { bytes = take (max c.size buffer_initial_size) c.bytes })

unfoldable pub drain : ℕ → Buffer → Buffer
drain len b = record b { read_pos = b.read_pos + min len (available b) }

-- The bytes that `take` hands out.
abbrev pub taken : Buffer → List ℕ
taken b =
    let out = take b.size b.bytes in
    if ltb 0 b.read_pos then drop (min b.read_pos (length out)) out else out

-- `Buffer::take`
unfoldable pub take_out : Buffer → Buffer × List ℕ
take_out b = (
  record b {
    bytes = if not b.owned then replicate (length b.bytes) 0 else [];
    size = 0;
    read_pos = 0;
  },
  taken b,
)

unfoldable pub as_slice : Buffer → List ℕ
as_slice b = take b.size b.bytes

unfoldable pub set_size : ℕ → Buffer → Buffer
set_size size b = record b { size = min size (length b.bytes) }

unfoldable pub set_read_pos : ℕ → Buffer → Buffer
set_read_pos pos b = record b { read_pos = min pos b.size }
