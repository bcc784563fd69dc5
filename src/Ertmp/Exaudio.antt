-- ===== src/Ertmp/Exaudio.antt =====
-- src/ertmp/exaudio.rs: the audio tag header.
use librtmp.Common.{
  ℕ, ◌+◌, ◌*◌, ◌/◌, ◌%◌, ◌^◌, Bool, true, false, ◌&&◌, Option, some, none, List, [], ◌∷◌, ◌++◌, ltb,
  leb, ◌==◌, if◌then◌else◌, length, take, drop,
}
use librtmp.Common.Result.{Result, ok, err, ErrorCode}
use librtmp.Bytes.{at}
use librtmp.Buffer.{splice}
use librtmp.Types.{
  AudioHeader, AudioCodec, pcm, adpcm, mp3, pcm_le, nelly16k, nelly8k, nelly, g711_a, g711_u, aac,
  speex, opus,
}
use librtmp.Ertmp.Fourcc.{fourcc_to_audio_codec}

-- `AudioHeader::default`
abbrev pub default_audio : AudioHeader
default_audio = record {
  is_ex_header = 0;
  packet_type = 0;
  fourcc = 0 ∷ 0 ∷ 0 ∷ 0 ∷ 0 ∷ [];
  audio_codec = pcm;
  sample_rate = 0;
  sample_size = 0;
  channels = 0;
  aac_packet_type = 0;
  header_size = 0;
}

-- The codec of a legacy tag's SoundFormat.
unfoldable pub legacy_codec : ℕ → Option AudioCodec
legacy_codec n =
    if n == 0
    then some pcm
    else if n == 1
    then some adpcm
    else if n == 2
    then some mp3
    else if n == 3
    then some pcm_le
    else if n == 4
    then some nelly16k
    else if n == 5
    then some nelly8k
    else if n == 6
    then some nelly
    else if n == 7
    then some g711_a
    else if n == 8
    then some g711_u
    else if n == 10
    then some aac
    else if n == 11
    then some speex
    else if n == 14
    then some mp3
    else none

unfoldable pub is_aac : AudioCodec → Bool
is_aac c = elim c [
  | aac ↦ true
  | pcm ↦ false
  | adpcm ↦ false
  | mp3 ↦ false
  | pcm_le ↦ false
  | nelly16k ↦ false
  | nelly8k ↦ false
  | nelly ↦ false
  | g711_a ↦ false
  | g711_u ↦ false
  | speex ↦ false
  | opus ↦ false
]

abbrev pub legacy_fields : List ℕ → ℕ → Option AudioCodec → AudioHeader × Result (Unit {0})
legacy_fields bytes b0 none = (default_audio, err ErrorCode.unsupported)
legacy_fields bytes b0 (some codec) =
    let h = record default_audio {
      audio_codec = codec;
      sample_rate = b0 / 2 ^ 2 % 2 ^ 2;
      sample_size = b0 / 2 % 2;
      channels = b0 % 2;
      header_size = 1;
    } in
    if is_aac codec && leb 2 (length bytes)
    then (record h { aac_packet_type = at bytes 1; header_size = 2 }, ok tt)
    else (h, ok tt)

abbrev set_codec : AudioHeader → Result AudioCodec → AudioHeader
set_codec h (ok codec) = record h { audio_codec = codec }
set_codec h (err e) = h

abbrev pub enhanced_fields : List ℕ → ℕ → AudioHeader
enhanced_fields bytes b0 =
    set_codec
      (record default_audio {
        is_ex_header = 1;
        packet_type = b0 % 2 ^ 4;
        fourcc = take 4 (drop 1 bytes) ++ (0 ∷ []);
        header_size = 5;
      })
      (fourcc_to_audio_codec (take 4 (drop 1 bytes)))

unfoldable pub exaudio_parse : List ℕ → AudioHeader × Result (Unit {0})
unfolding legacy_codec
exaudio_parse [] = (default_audio, err ErrorCode.io)
exaudio_parse (b0 ∷ bytes) =
    let is_ex = b0 / 2 ^ 4 % 2 ^ 4 == 9 in
    if is_ex && ltb (length (b0 ∷ bytes)) 5
    then (default_audio, err ErrorCode.io)
    else if is_ex
    then (enhanced_fields (b0 ∷ bytes) b0, ok tt)
    else legacy_fields (b0 ∷ bytes) b0 (legacy_codec (b0 / 2 ^ 4 % 2 ^ 4))

-- The SoundFormat that a codec is written as.
unfoldable pub codec_nibble : AudioCodec → Option ℕ
codec_nibble pcm = some 0
codec_nibble adpcm = some 1
codec_nibble mp3 = some 2
codec_nibble pcm_le = some 3
codec_nibble nelly16k = some 4
codec_nibble nelly8k = some 5
codec_nibble nelly = some 6
codec_nibble g711_a = some 7
codec_nibble g711_u = some 8
codec_nibble aac = some 10
codec_nibble speex = some 11
codec_nibble opus = none

abbrev pub write_legacy : AudioHeader → List ℕ → Option ℕ → ℕ × List ℕ
write_legacy hdr buf none = (0, buf)
write_legacy hdr buf (some nibble) =
    let b0 =
      nibble * 2 ^ 4 % 256
      + hdr.sample_rate % 2 ^ 2 * 2 ^ 2
      + hdr.sample_size % 2 * 2
      + hdr.channels % 2 in
    if is_aac hdr.audio_codec
    then (if ltb (length buf) 2
        then (0, buf)
        else (2, splice buf 0 (b0 ∷ hdr.aac_packet_type ∷ [])))
    else if ltb (length buf) 1
    then (0, buf)
    else (1, splice buf 0 (b0 ∷ []))

unfoldable pub exaudio_write : AudioHeader → List ℕ → ℕ × List ℕ
unfolding codec_nibble
exaudio_write hdr buf =
    if hdr.is_ex_header == 0
    then write_legacy hdr buf (codec_nibble hdr.audio_codec)
    else if ltb (length buf) 5
    then (0, buf)
    else (5, splice buf 0 ((9 * 2 ^ 4 + hdr.packet_type % 2 ^ 4) ∷ take 4 hdr.fourcc))
