-- ===== src/Media/Modex/Tests.antt =====
-- src/media/modex.rs: a packet in two layers.
use librtmp.Common.{
  ◌*◌, ◌/◌, ◌+◌, ◌^◌, ◌≡◌, refl, [], ◌∷◌, ◌++◌, suc, length, leb, if◌then◌else◌, arith,
}
use librtmp.Types.{video}
use librtmp.Media.Modex.{normalize_modex_payload_with_frame_type, max_modex_chain_layers}
use librtmp.Media.Modex.Layer.{Layer, Valid}
use librtmp.Media.Modex.Chain.{chain_wire, normalize-chain}

abbrev nano : Layer
nano = record { kind = 0; content = 0 ∷ 3 ∷ 232 ∷ [] }

abbrev reserved : Layer
reserved = record { kind = 5; content = 1 ∷ [] }

nano-Valid : Valid nano
nano-Valid = record {
  small_kind = omega arith;
  some_content = omega arith;
  short_content = omega arith;
}

reserved-Valid : Valid reserved
reserved-Valid = record {
  small_kind = omega arith;
  some_content = omega arith;
  short_content = omega arith;
}

normalize-chain_example :
    normalize_modex_payload_with_frame_type
      (0x97 ∷ (chain_wire nano (reserved ∷ []) 1 ++ (65 ∷ 66 ∷ [])))
      4
      video
    ≡ (if leb (suc (length (reserved ∷ []))) max_modex_chain_layers
        then (0x97 / 2 ^ 4 * 2 ^ 4 + 1) ∷ 65 ∷ 66 ∷ []
        else 0x97 ∷ (chain_wire nano (reserved ∷ []) 1 ++ (65 ∷ 66 ∷ [])))
normalize-chain_example =
    normalize-chain 0x97 nano (reserved ∷ []) 1 (65 ∷ 66 ∷ []) 4 video (omega arith) refl nano-Valid
      (reserved-Valid, tt) refl refl refl refl
