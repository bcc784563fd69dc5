-- ===== src/Ertmp/Modex.antt =====
-- src/ertmp/modex.rs: the ModEx wrapper of an application. `modex` is the out parameter.
use librtmp.Common.{
  ℕ, ◌+◌, ◌*◌, ◌/◌, ◌%◌, ◌^◌, Option, some, none, List, [], ◌∷◌, ltb, ◌==◌, if◌then◌else◌, length,
}
use librtmp.Common.Result.{Result, ok, err, ErrorCode}
use librtmp.Bytes.{at}
use librtmp.Buffer.{splice, slice}
use librtmp.Types.{Modex, timestamp_offset_nano, nop}
use librtmp.Media.Modex.{ModexLayer, parse_modex_layer}

abbrev pub modex_type_timestamp_offset_nano : ℕ
modex_type_timestamp_offset_nano = 0

abbrev pub of_layer : List ℕ → Modex → Option ModexLayer → Modex × Result ℕ
of_layer bytes modex none = (modex, err ErrorCode.io)
of_layer bytes modex (some layer) =
    let modex_data = slice bytes layer.data_start layer.data_end in
    if layer.modex_type == modex_type_timestamp_offset_nano
    then (if ltb (length modex_data) 3 then (modex, err ErrorCode.protocol) else (
      record {
        modex_type = timestamp_offset_nano;
        offset = at modex_data 0 * 2 ^ 16 + at modex_data 1 * 2 ^ 8 + at modex_data 2;
        next_packet_type = layer.next_packet_type;
      },
      ok layer.next_pos,
    ))
    else (
      record { modex_type = nop; offset = 0; next_packet_type = layer.next_packet_type },
      ok layer.next_pos,
    )

unfoldable pub modex_parse_prefix : Modex → List ℕ → Modex × Result ℕ
modex_parse_prefix modex bytes = of_layer bytes modex (parse_modex_layer bytes 0)

abbrev without {ℓ} : {A : Type ℓ} → Modex × Result A → Modex × Result (Unit {0})
without (m, ok a) = (m, ok tt)
without (m, err e) = (m, err e)

unfoldable pub modex_parse : Modex → List ℕ → Modex × Result (Unit {0})
unfolding modex_parse_prefix
modex_parse modex bytes = without (modex_parse_prefix modex bytes)

abbrev pub write_offset : Modex → List ℕ → ℕ × List ℕ
write_offset modex buf =
    let offset = modex.offset % 2 ^ 24 in
    if ltb (length buf) 5 then (0, buf) else (
      5,
      splice buf 0 (
          2
          ∷ (offset / 2 ^ 16 % 256)
          ∷ (offset / 2 ^ 8 % 256)
          ∷ (offset % 256)
          ∷ (modex_type_timestamp_offset_nano * 2 ^ 4 + modex.next_packet_type % 2 ^ 4)
          ∷ []),
    )

unfoldable pub modex_write : Modex → List ℕ → ℕ × List ℕ
modex_write modex buf = elim modex.modex_type [
  | nop ↦ (0, buf)
  | timestamp_offset_nano ↦ write_offset modex buf
]
