-- ===== src/Media/Modex.antt =====
-- src/media/modex.rs: ModEx wrappers around a media packet. `checked_add` on offsets of a payload that
-- is in memory does not overflow.
pub mod Layer
pub mod Chain
mod Tests
use librtmp.Common.{
  ℕ, zero, suc, ◌+◌, ◌*◌, ◌/◌, ◌%◌, ◌^◌, Bool, true, false, not, ◌&&◌, ◌||◌, Option, some, none,
  List, [], ◌∷◌, ltb, ◌==◌, if◌then◌else◌, drop, get_elem?,
}
use librtmp.Bytes.{at}
use librtmp.Types.{FrameType, audio, video, script, metadata}

abbrev pub ertmp_packet_type_modex : ℕ
ertmp_packet_type_modex = 7

abbrev pub max_modex_chain_layers : ℕ
max_modex_chain_layers = 32

pub record ModexLayer : Type 0 where
  pub modex_type : ℕ
  pub next_packet_type : ℕ
  pub data_start : ℕ
  pub data_end : ℕ
  pub next_pos : ℕ

-- `?` on an option.
infixl 5 ◌>>=◌
abbrev ◌>>=◌ {ℓ κ} : {A : Type ℓ} {B : Type κ} → Option A → (A → Option B) → Option B
none >>= f = none
some a >>= f = f a

-- The cursor behind the size field, and the size.
unfoldable pub layer_size : List ℕ → ℕ → ℕ → Option (ℕ × ℕ)
layer_size payload pos size_minus_one =
    if size_minus_one == 255
    then (do
      hi ← get_elem? payload (pos + 1)
      lo ← get_elem? payload (pos + 2)
      some (pos + 3, hi * 2 ^ 8 + lo + 1))
    else some (pos + 1, size_minus_one + 1)

unfoldable pub parse_modex_layer : List ℕ → ℕ → Option ModexLayer
unfolding layer_size
parse_modex_layer payload pos = do
  size_minus_one ← get_elem? payload pos
  (cursor, modex_size) ← layer_size payload pos size_minus_one
  option ← get_elem? payload (cursor + modex_size)
  some (record {
    modex_type = option / 2 ^ 4;
    next_packet_type = option % 2 ^ 4;
    data_start = cursor;
    data_end = cursor + modex_size;
    next_pos = cursor + modex_size + 1;
  })

-- Behind a layer the loop goes on, or ends with the position and the header.
abbrev pub peel_next : (ℕ → ℕ → Option (ℕ × ℕ)) → ℕ → Option ModexLayer → Option (ℕ × ℕ)
peel_next more header none = none
peel_next more header (some layer) =
    let next = header / 2 ^ 4 * 2 ^ 4 + layer.next_packet_type in
    let rest = more layer.next_pos next in
    if layer.next_packet_type == ertmp_packet_type_modex then rest else some (layer.next_pos, next)

-- The `loop`, in as many rounds as layers are allowed; `none` leaves the payload as it is.
unfoldable pub peel : List ℕ → ℕ → ℕ → ℕ → Option (ℕ × ℕ)
peel payload zero pos header = none
peel payload (suc layers) pos header =
    peel_next (peel payload layers) header (parse_modex_layer payload pos)

-- `frame_type == FrameType::Audio`
abbrev pub is_audio : FrameType → Bool
is_audio audio = true
is_audio video = false
is_audio script = false
is_audio metadata = false

-- `payload.is_empty()`
abbrev is_empty : List ℕ → Bool
is_empty [] = true
is_empty (x ∷ xs) = false

abbrev pub rebuilt : List ℕ → Option (ℕ × ℕ) → List ℕ
rebuilt payload none = payload
rebuilt payload (some (pos, header)) = header ∷ drop pos payload

-- The mask's bit for ModEx is 4, and the payload's bit for an enhanced header 128.
unfoldable pub normalize_modex_payload_with_frame_type : List ℕ → ℕ → FrameType → List ℕ
unfolding peel
normalize_modex_payload_with_frame_type payload caps_ex_mask frame_type =
    if is_empty payload
      || (caps_ex_mask / 2 ^ 2 % 2 == 0
          || (at payload 0 / 2 ^ 7 % 2 == 0
              || not (at payload 0 % 2 ^ 4 == ertmp_packet_type_modex)))
    then payload
    else if is_audio frame_type && not (at payload 0 / 2 ^ 4 % 2 ^ 4 == 9)
    then payload
    else rebuilt payload (peel payload max_modex_chain_layers 1 (at payload 0))

unfoldable pub normalize_modex_payload : List ℕ → ℕ → List ℕ
unfolding normalize_modex_payload_with_frame_type
normalize_modex_payload payload caps_ex_mask =
    normalize_modex_payload_with_frame_type payload caps_ex_mask video
