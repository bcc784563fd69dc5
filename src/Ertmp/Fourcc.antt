-- ===== src/Ertmp/Fourcc.antt =====
-- src/ertmp/fourcc.rs: the codecs that FourCCs name.
use librtmp.Common.{ℕ, List, [], ◌∷◌, ltb, if◌then◌else◌, length, take}
use librtmp.Common.Result.{Result, ok, err, ErrorCode}
use librtmp.Bytes.{bytes_eq}
use librtmp.Types.{AudioCodec, VideoCodec, mp3, aac, opus, h264, h265, av1, vp9}

-- An entry of a table: the FourCC and the codec.
abbrev pub video_fourccs : List (List ℕ × VideoCodec)
video_fourccs =
    (b'a' ∷ b'v' ∷ b'c' ∷ b'1' ∷ [], h264)
    ∷ (b'h' ∷ b'v' ∷ b'c' ∷ b'1' ∷ [], h265)
    ∷ (b'a' ∷ b'v' ∷ b'0' ∷ b'1' ∷ [], av1)
    ∷ (b'v' ∷ b'p' ∷ b'0' ∷ b'9' ∷ [], vp9)
    ∷ []

abbrev pub audio_fourccs : List (List ℕ × AudioCodec)
audio_fourccs =
    (b'O' ∷ b'p' ∷ b'u' ∷ b's' ∷ [], opus)
    ∷ (b'm' ∷ b'p' ∷ b'4' ∷ b'a' ∷ [], aac)
    ∷ (b'm' ∷ b'p' ∷ b'3' ∷ b' ' ∷ [], mp3)
    ∷ (b'.' ∷ b'm' ∷ b'p' ∷ b'3' ∷ [], mp3)
    ∷ (b'a' ∷ b'c' ∷ b'-' ∷ b'3' ∷ [], aac)
    ∷ (b'e' ∷ b'c' ∷ b'-' ∷ b'3' ∷ [], aac)
    ∷ (b'f' ∷ b'L' ∷ b'a' ∷ b'C' ∷ [], aac)
    ∷ []

-- The `for entry in ..` loops.
unfoldable pub find_codec {ℓ} : {C : Type ℓ} → List ℕ → List (List ℕ × C) → Result C
find_codec fourcc [] = err ErrorCode.chunk
find_codec fourcc ((cc, codec) ∷ entries) =
    let rest = find_codec fourcc entries in if bytes_eq (take 4 fourcc) cc then ok codec else rest

unfoldable pub fourcc_to_video_codec : List ℕ → Result VideoCodec
unfolding find_codec
fourcc_to_video_codec fourcc =
    if ltb (length fourcc) 4 then err ErrorCode.chunk else find_codec fourcc video_fourccs

unfoldable pub fourcc_to_audio_codec : List ℕ → Result AudioCodec
unfolding find_codec
fourcc_to_audio_codec fourcc =
    if ltb (length fourcc) 4 then err ErrorCode.chunk else find_codec fourcc audio_fourccs
