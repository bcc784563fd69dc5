-- ===== src/Ertmp/Tests.antt =====
-- src/ertmp: concrete tag headers.
use librtmp.Common.{ℕ, ◌%◌, ◌^◌, ◌≡◌, refl, inr, List, arith, replicate}
use librtmp.Common.Result.{ok}
use librtmp.Types.{aac, Modex, nop, timestamp_offset_nano}
use librtmp.Ertmp.Exvideo.{exvideo_parse, exvideo_write}
use librtmp.Ertmp.Exaudio.{exaudio_parse, exaudio_write}
use librtmp.Ertmp.Modex.{modex_parse_prefix, modex_write}
use librtmp.Ertmp.RoundTrip.{
  video_header, legacy, exvideo_round_trip, exaudio_round_trip, modex_round_trip,
}

abbrev eight_bytes : List ℕ
eight_bytes = replicate 8 0

-- A frame of "hvc1" with a composition time of -1.
exvideo_round_trip_example :
    exvideo_parse (exvideo_write (video_header 1 1 104 118 99 49 0xFFFFFFFF 0) eight_bytes).1 ≡ (
      video_header 1 1 104 118 99 49 0xFFFFFFFF
          (exvideo_write (video_header 1 1 104 118 99 49 0xFFFFFFFF 0) eight_bytes).0,
      ok tt,
    )
unfolding librtmp.Ertmp.Exvideo.is_command librtmp.Ertmp.Exvideo.is_composition_time_codec
exvideo_round_trip_example =
    exvideo_round_trip 1 1 104 118 99 49 0xFFFFFFFF 0 eight_bytes (omega arith) (omega arith) refl
      (omega arith) (inr (refl, inr (omega arith, omega arith)))

exaudio_round_trip_example :
    exaudio_parse (exaudio_write (legacy aac 3 1 1 1 0) eight_bytes).1
    ≡ (legacy aac 3 1 1 1 (exaudio_write (legacy aac 3 1 1 1 0) eight_bytes).0, ok tt)
unfolding librtmp.Ertmp.Exaudio.codec_nibble librtmp.Ertmp.Exaudio.is_aac
exaudio_round_trip_example =
    exaudio_round_trip aac 3 1 1 1 0 10 eight_bytes refl (omega arith) (omega arith) (omega arith)
      (omega arith) (inr refl)

abbrev no_modex : Modex
no_modex = record { modex_type = nop; offset = 0; next_packet_type = 0 }

modex_round_trip_example :
    modex_parse_prefix no_modex
      (modex_write
        (record { modex_type = timestamp_offset_nano; offset = 1000; next_packet_type = 1 })
        eight_bytes).1
    ≡ (
      record {
        modex_type = timestamp_offset_nano;
        offset = 1000 % 2 ^ 24;
        next_packet_type = 1 % 2 ^ 4;
      },
      ok 5,
    )
modex_round_trip_example = modex_round_trip no_modex 1000 1 eight_bytes (omega arith)
