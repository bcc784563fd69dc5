-- ===== src/Types.antt =====
-- src/types.rs: the enumerations that the media code shares.
use librtmp.Common.{ℕ, List}

pub data FrameType : Type 0 where
  audio video script metadata : FrameType

abbrev pub frame_type_code : FrameType → ℕ
frame_type_code audio = 0
frame_type_code video = 1
frame_type_code script = 2
frame_type_code metadata = 3

pub data AudioCodec : Type 0 where
  pcm adpcm mp3 pcm_le nelly16k nelly8k nelly g711_a g711_u aac speex opus : AudioCodec

pub data VideoCodec : Type 0 where
  jpeg sorenson screen vp6 vp6a screen2 h264 h265 av1 vp9 : VideoCodec

abbrev pub ertmp_packet_type_metadata : ℕ
ertmp_packet_type_metadata = 4

pub record VideoHeader : Type 0 where
  pub is_ex_header : ℕ
  pub frame_type : ℕ
  pub packet_type : ℕ
  pub fourcc : List ℕ
  pub composition_time : ℕ
  pub header_size : ℕ

pub record AudioHeader : Type 0 where
  pub is_ex_header : ℕ
  pub packet_type : ℕ
  pub fourcc : List ℕ
  pub audio_codec : AudioCodec
  pub sample_rate : ℕ
  pub sample_size : ℕ
  pub channels : ℕ
  pub aac_packet_type : ℕ
  pub header_size : ℕ

-- `timestamp_offset_nano` and `nop`.
pub data ModexType : Type 0 where
  timestamp_offset_nano nop : ModexType

pub record Modex : Type 0 where
  pub modex_type : ModexType
  pub offset : ℕ
  pub next_packet_type : ℕ
