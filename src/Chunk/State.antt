-- ===== src/Chunk/State.antt =====
-- src/chunk/state.rs: the state of each chunk stream, and the registry of a connection's streams.
-- The hash map from a chunk-stream id to its slot is a function; a slot index that is out of range
-- panics in the source, and Chunk/State/Inv shows that none is.
pub mod Slots
pub mod Inv
pub mod Open
pub mod Lookup
pub mod Pending
pub mod Ops
pub mod Resize
mod Tests
use librtmp.Common.{
  ℕ, zero, suc, ◌+◌, ◌-◌, ◌*◌, ◌^◌, min, Bool, true, false, not, ◌&&◌, ◌||◌, Option, none, some,
  List, [], ◌∷◌, ◌++◌, ltb, leb, ◌==◌, if◌then◌else◌, length, get_or,
}
use librtmp.Common.Result.{Result, ok, err, ErrorCode, M}
use librtmp.Buffer.{Buffer, with_capacity, available, take_out}
use librtmp.Message.Control.{max_peer_chunk_size}

abbrev pub default_chunk_size : ℕ
default_chunk_size = 128

abbrev pub max_chunk_streams : ℕ
max_chunk_streams = 4096

abbrev pub max_reassembly_bytes_per_conn : ℕ
max_reassembly_bytes_per_conn = 32 * 1024 * 1024

abbrev pub default_max_msg_length : ℕ
default_max_msg_length = 4 * 1024 * 1024

abbrev pub rtmp_wire_max_msg_length : ℕ
rtmp_wire_max_msg_length = 0x00FF_FFFF

abbrev pub default_max_active_csids : ℕ
default_max_active_csids = 256

pub record ChunkStream : Type 0 where
  pub csid : ℕ
  pub chunk_size : ℕ
  pub has_message_header : Bool
  pub type0_timestamp : ℕ
  pub type0_msg_length : ℕ
  pub type0_msg_type_id : ℕ
  pub type0_msg_stream_id : ℕ
  pub type0_ext_ts : Bool
  pub last_delta : ℕ
  pub reassembly_bytes_read : ℕ
  pub reassembly_buf : Buffer
  pub chunk_read_scratch : List ℕ
  pub last_payload : List ℕ
  pub reassembling : Bool
  pub in_use : Bool

-- `ChunkStream::default`
unfoldable pub default_stream : ChunkStream
default_stream = record {
  csid = 0;
  chunk_size = default_chunk_size;
  has_message_header = false;
  type0_timestamp = 0;
  type0_msg_length = 0;
  type0_msg_type_id = 0;
  type0_msg_stream_id = 0;
  type0_ext_ts = false;
  last_delta = 0;
  reassembly_bytes_read = 0;
  reassembly_buf = with_capacity 0;
  chunk_read_scratch = [];
  last_payload = [];
  reassembling = false;
  in_use = false;
}

-- `ChunkStream::reset`
unfoldable pub reset : ℕ → ChunkStream → ChunkStream
reset size s = record s {
  has_message_header = false;
  type0_timestamp = 0;
  type0_msg_length = 0;
  type0_msg_type_id = 0;
  type0_msg_stream_id = 0;
  type0_ext_ts = false;
  last_delta = 0;
  reassembly_bytes_read = 0;
  reassembly_buf = (take_out s.reassembly_buf).0;
  chunk_read_scratch = [];
  last_payload = [];
  reassembling = false;
  chunk_size = size;
}

pub record ChunkRegistry : Type 0 where
  pub streams : List ChunkStream
  pub csid_index : ℕ → Option ℕ
  pub reassembly_bytes_in_use : ℕ
  pub reassembling_count : ℕ
  pub default_size : ℕ
  pub max_msg_length : ℕ
  pub max_active_csids : ℕ
  pub max_reassembly_bytes : ℕ
  pub initialized : Bool

unfoldable pub new : ChunkRegistry
new = record {
  streams = [];
  csid_index = λ _. none;
  reassembly_bytes_in_use = 0;
  reassembling_count = 0;
  default_size = default_chunk_size;
  max_msg_length = default_max_msg_length;
  max_active_csids = default_max_active_csids;
  max_reassembly_bytes = max_reassembly_bytes_per_conn;
  initialized = true;
}

unfoldable pub init : ChunkRegistry → ChunkRegistry
init reg = record reg { initialized = true; default_size = default_chunk_size }

-- `self.streams[idx]`
abbrev pub stream_at : ChunkRegistry → ℕ → ChunkStream
stream_at reg idx = get_or reg.streams idx default_stream

-- `self.streams[idx] = f(self.streams[idx])`
abbrev pub modify : List ChunkStream → ℕ → (ChunkStream → ChunkStream) → List ChunkStream
modify [] i f = []
modify (s ∷ ss) zero f = f s ∷ ss
modify (s ∷ ss) (suc i) f = s ∷ modify ss i f

abbrev pub modify_stream : ℕ → (ChunkStream → ChunkStream) → ChunkRegistry → ChunkRegistry
modify_stream idx f reg = record reg { streams = modify reg.streams idx f }

-- The slot of `csid`, if the map has one and the stream in it is live and has that id.
unfoldable pub find_slot : ChunkRegistry → ℕ → Option ℕ
find_slot reg csid = elim (reg.csid_index csid) [
  | none ↦ none
  | some idx ↦
      if (stream_at reg idx).in_use && (stream_at reg idx).csid == csid then some idx else none
]

-- What `get` does with the slot.
abbrev pub slot_stream : ChunkRegistry → Option ℕ → Option ChunkStream
slot_stream reg none = none
slot_stream reg (some idx) = some (stream_at reg idx)

-- `reg.get(csid).map(f).unwrap_or(d)`
abbrev pub map_or {ℓ} : {A : Type ℓ} → A → (ChunkStream → A) → Option ChunkStream → A
map_or d f none = d
map_or d f (some s) = f s

unfoldable pub get : ChunkRegistry → ℕ → Option ChunkStream
unfolding find_slot
get reg csid = slot_stream reg (find_slot reg csid)

-- The stream that `get_or_create_index` pushes.
unfoldable pub fresh_stream : ℕ → ℕ → ChunkStream
unfolding default_stream
fresh_stream csid size = record default_stream { csid = csid; in_use = true; chunk_size = size }

abbrev pub insert_index : (ℕ → Option ℕ) → ℕ → ℕ → ℕ → Option ℕ
insert_index index csid idx other = if other == csid then some idx else index other

unfoldable pub create : ℕ → M ChunkRegistry ℕ
unfolding fresh_stream
create csid reg =
    if leb reg.max_active_csids reg.reassembling_count
    then (reg, err ErrorCode.chunk)
    else if leb max_chunk_streams (length reg.streams)
    then (reg, err ErrorCode.chunk)
    else (
      record reg {
        streams = reg.streams ++ (fresh_stream csid reg.default_size ∷ []);
        csid_index = insert_index reg.csid_index csid (length reg.streams);
      },
      ok (length reg.streams),
    )

-- `get_or_create_index` behind the lookup of the slot.
abbrev pub get_or_create_at : ℕ → Option ℕ → M ChunkRegistry ℕ
get_or_create_at csid none reg = create csid reg
get_or_create_at csid (some idx) reg =
    if not (stream_at reg idx).reassembling && leb reg.max_active_csids reg.reassembling_count
    then (reg, err ErrorCode.chunk)
    else (reg, ok idx)

unfoldable pub get_or_create_index : ℕ → M ChunkRegistry ℕ
unfolding create find_slot
get_or_create_index csid reg = get_or_create_at csid (find_slot reg csid) reg

-- `can_get_or_create` behind the lookup of the slot.
abbrev pub can_create_at : ChunkRegistry → Option ℕ → Bool
can_create_at reg none =
    if leb reg.max_active_csids reg.reassembling_count
    then false
    else ltb (length reg.streams) max_chunk_streams
can_create_at reg (some idx) =
    (stream_at reg idx).reassembling || ltb reg.reassembling_count reg.max_active_csids

unfoldable pub can_get_or_create : ChunkRegistry → ℕ → Bool
unfolding find_slot
can_get_or_create reg csid = can_create_at reg (find_slot reg csid)

-- `usize::saturating_add` on 64 bits; `saturating_sub` is the subtraction of natural numbers.
abbrev pub saturating_add : ℕ → ℕ → ℕ
saturating_add a b = min (a + b) (2 ^ 64 - 1)

unfoldable pub release_reassembly_bytes : ℕ → ChunkRegistry → ChunkRegistry
release_reassembly_bytes released reg = record reg {
  reassembly_bytes_in_use = reg.reassembly_bytes_in_use - released;
}

-- The registry, and the number of bytes released.
unfoldable pub release_stream_reassembly : ℕ → ChunkRegistry → ChunkRegistry × ℕ
unfolding release_reassembly_bytes
release_stream_reassembly idx reg =
    let released = available (stream_at reg idx).reassembly_buf in
    (release_reassembly_bytes released reg, released)

unfoldable pub release_stream_reassembly_by_csid : ℕ → ChunkRegistry → ChunkRegistry × ℕ
unfolding release_stream_reassembly
release_stream_reassembly_by_csid csid reg = elim (reg.csid_index csid) [
  | none ↦ (reg, 0)
  | some idx ↦ release_stream_reassembly idx reg
]

unfoldable pub note_reassembly_growth : ℕ → ChunkRegistry → ChunkRegistry
note_reassembly_growth nbytes reg = record reg {
  reassembly_bytes_in_use = saturating_add reg.reassembly_bytes_in_use nbytes;
}

abbrev bool_eq : Bool → Bool → Bool
bool_eq true b = b
bool_eq false b = not b

unfoldable pub set_stream_reassembling : ℕ → Bool → ChunkRegistry → ChunkRegistry
set_stream_reassembling idx flag reg =
    if bool_eq (stream_at reg idx).reassembling flag then reg else record reg {
      streams = modify reg.streams idx (λ s. record s { reassembling = flag });
      reassembling_count = if flag then reg.reassembling_count + 1 else reg.reassembling_count - 1;
    }

-- The `for` of `set_all_chunk_size`.
unfoldable pub resize_streams : ℕ → List ChunkStream → List ChunkStream
resize_streams size [] = []
resize_streams size (s ∷ ss) =
    (if s.in_use then record s { chunk_size = size } else s) ∷ resize_streams size ss

unfoldable pub set_all_chunk_size : ℕ → ChunkRegistry → ChunkRegistry
unfolding resize_streams
set_all_chunk_size size reg =
    if ltb size default_chunk_size || ltb max_peer_chunk_size size
    then reg
    else record reg { default_size = size; streams = resize_streams size reg.streams }

unfoldable pub can_grow_reassembly : ChunkRegistry → ℕ → Result (Unit {0})
can_grow_reassembly reg additional =
    if ltb reg.max_reassembly_bytes (reg.reassembly_bytes_in_use + additional)
    then err ErrorCode.chunk
    else ok tt

-- `reset_stream` and `abort_stream` behind the lookup of the slot: `f` is what they do to it.
abbrev pub drop_message : (ChunkStream → ChunkStream) → Option ℕ → ChunkRegistry → ChunkRegistry
drop_message f none reg = reg
drop_message f (some idx) reg =
    modify_stream idx f (set_stream_reassembling idx false (release_stream_reassembly idx reg).0)

unfoldable pub reset_stream : ℕ → ChunkRegistry → ChunkRegistry
unfolding find_slot set_stream_reassembling release_stream_reassembly reset
reset_stream csid reg = drop_message (reset reg.default_size) (find_slot reg csid) reg

unfoldable pub abort : ChunkStream → ChunkStream
abort s = record s {
  reassembly_buf = (take_out s.reassembly_buf).0;
  reassembly_bytes_read = 0;
  chunk_read_scratch = [];
}

unfoldable pub abort_stream : ℕ → ChunkRegistry → ChunkRegistry
unfolding find_slot set_stream_reassembling release_stream_reassembly abort
abort_stream csid reg = drop_message abort (find_slot reg csid) reg

unfoldable pub destroy : ChunkRegistry → ChunkRegistry
destroy reg = record reg {
  streams = [];
  csid_index = λ _. none;
  reassembly_bytes_in_use = 0;
  reassembling_count = 0;
  initialized = false;
}
