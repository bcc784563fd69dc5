-- ===== src/Ertmp/Exvideo.antt =====
-- src/ertmp/exvideo.rs: the video tag header. `data` is what is parsed, and a parser's header is its out
-- parameter, as it is left by an error too.
use librtmp.Common.{
  ℕ, ◌+◌, ◌*◌, ◌/◌, ◌%◌, ◌^◌, Bool, not, ◌&&◌, ◌||◌, List, [], ◌∷◌, ◌++◌, ltb, leb, ◌==◌,
  if◌then◌else◌, length, take, drop,
}
use librtmp.Common.Result.{Result, ok, err, ErrorCode}
use librtmp.Bytes.{at, bytes_eq}
use librtmp.Buffer.{splice}
use librtmp.Types.{VideoHeader, ertmp_packet_type_metadata}
use librtmp.Media.Modex.{ertmp_packet_type_modex}

abbrev pub video_frame_type_command : ℕ
video_frame_type_command = 5

-- `VideoHeader::default`
abbrev pub default_video : VideoHeader
default_video = record {
  is_ex_header = 0;
  frame_type = 0;
  packet_type = 0;
  fourcc = 0 ∷ 0 ∷ 0 ∷ 0 ∷ 0 ∷ [];
  composition_time = 0;
  header_size = 0;
}

unfoldable pub is_composition_time_codec : List ℕ → Bool
is_composition_time_codec fourcc =
    bytes_eq (take 4 fourcc) (b'a' ∷ b'v' ∷ b'c' ∷ b'1' ∷ [])
    || (bytes_eq (take 4 fourcc) (b'h' ∷ b'v' ∷ b'c' ∷ b'1' ∷ [])
        || bytes_eq (take 4 fourcc) (b'v' ∷ b'v' ∷ b'c' ∷ b'1' ∷ []))

-- Three bytes as a signed number, of which the 32-bit pattern is kept.
unfoldable pub si24 : List ℕ → ℕ → ℕ
si24 bytes i =
    let ct = at bytes i * 2 ^ 16 + at bytes (i + 1) * 2 ^ 8 + at bytes (i + 2) in
    if leb (2 ^ 23) ct then ct + 0xFF000000 else ct

-- A command frame has no FourCC.
unfoldable pub is_command : ℕ → ℕ → Bool
is_command frame_type packet_type =
    frame_type == video_frame_type_command
    && (not (packet_type == ertmp_packet_type_metadata)
        && not (packet_type == ertmp_packet_type_modex))

abbrev pub legacy_header : List ℕ → ℕ → VideoHeader
legacy_header bytes b0 =
    let h = record default_video { frame_type = b0 / 2 ^ 4 % 2 ^ 4; header_size = 1 } in
    if b0 % 2 ^ 4 == 7 && leb 5 (length bytes)
    then record h { composition_time = si24 bytes 2; header_size = 5 }
    else h

-- The enhanced header behind its first byte.
abbrev pub fourcc_header : List ℕ → VideoHeader → VideoHeader × Result (Unit {0})
fourcc_header bytes h =
    let h5 = record h { fourcc = take 4 (drop 1 bytes) ++ drop 4 h.fourcc; header_size = 5 } in
    if ltb (length bytes) 5
    then (h, err ErrorCode.io)
    else if h5.packet_type == 1 && is_composition_time_codec h5.fourcc
    then (if ltb (length bytes) 8
        then (h5, err ErrorCode.io)
        else (record h5 { composition_time = si24 bytes 5; header_size = 8 }, ok tt))
    else (h5, ok tt)

abbrev pub enhanced_header : List ℕ → ℕ → VideoHeader × Result (Unit {0})
enhanced_header bytes b0 =
    let h = record default_video {
      is_ex_header = 1;
      frame_type = b0 / 2 ^ 4 % 2 ^ 3;
      packet_type = b0 % 2 ^ 4;
    } in
    if is_command h.frame_type h.packet_type
    then (if ltb (length bytes) 2
        then (h, err ErrorCode.io)
        else (record h { header_size = 2 }, ok tt))
    else fourcc_header bytes h

unfoldable pub exvideo_parse : List ℕ → VideoHeader × Result (Unit {0})
exvideo_parse [] = (default_video, err ErrorCode.io)
exvideo_parse (b0 ∷ bytes) =
    if b0 / 2 ^ 7 % 2 == 0
    then (legacy_header (b0 ∷ bytes) b0, ok tt)
    else enhanced_header (b0 ∷ bytes) b0

-- The number of bytes written, and the buffer with them.
unfoldable pub exvideo_write : VideoHeader → List ℕ → ℕ × List ℕ
exvideo_write hdr buf =
    let needs_ct = hdr.packet_type == 1 && is_composition_time_codec hdr.fourcc in
    let len = if needs_ct then 8 else 5 in
    let head =
      (2 ^ 7 + hdr.frame_type % 2 ^ 3 * 2 ^ 4 + hdr.packet_type % 2 ^ 4) ∷ take 4 hdr.fourcc in
    let ct =
      (hdr.composition_time / 2 ^ 16 % 256)
      ∷ (hdr.composition_time / 2 ^ 8 % 256)
      ∷ (hdr.composition_time % 256)
      ∷ [] in
    if hdr.is_ex_header == 0
    then (0, buf)
    else if is_command hdr.frame_type hdr.packet_type
    then (0, buf)
    else if ltb (length buf) len
    then (0, buf)
    else (len, splice buf 0 (head ++ (if needs_ct then ct else [])))
