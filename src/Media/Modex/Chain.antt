-- ===== src/Media/Modex/Chain.antt =====
-- src/media/modex.rs: chained ModEx layers are taken off, up to a limit.
use librtmp.Common.{
  ℕ, zero, suc, ◌+◌, ◌*◌, ◌/◌, ◌%◌, ◌^◌, ◌≤◌, ◌<◌, ◌≡◌, refl, ap, ◌∙◌, ◌⊎◌, inl, inr, false, not,
  ◌&&◌, some, none, List, [], ◌∷◌, ◌++◌, arith, leb, le→leb, lt→leb, ◌==◌, if◌then◌else◌, length,
  drop, All, append_assoc,
}
use librtmp.Types.{FrameType}
use librtmp.Media.Modex.{
  peel, is_audio, ertmp_packet_type_modex, max_modex_chain_layers,
  normalize_modex_payload_with_frame_type,
}
use librtmp.Media.Modex.Layer.{Layer, Valid, layer_wire, parse_modex_layer_lem}

-- Layers, of which all but the last are followed by another one, and the last by a packet of type `pt`.
abbrev pub chain_wire : Layer → List Layer → ℕ → List ℕ
chain_wire l [] pt = layer_wire l pt
chain_wire l (k ∷ ks) pt = layer_wire l ertmp_packet_type_modex ++ chain_wire k ks pt

module _ (payload : List ℕ) (pt : ℕ) (body : List ℕ) (small : pt < 2 ^ 4)
    (other : (pt == ertmp_packet_type_modex) ≡ false) where
  -- The position of the body and the header of the packet, unless the layers are too many.
  abbrev Peeled : ℕ → ℕ → ℕ → ℕ → Type 0
  Peeled layers n pos header =
      ((n ≤ layers)
        × ((end : ℕ) × (drop end payload ≡ body)
            × (peel payload layers pos header ≡ some (end, header / 2 ^ 4 * 2 ^ 4 + pt))))
      ⊎ ((layers < n) × (peel payload layers pos header ≡ none))

  peel-chain :
      (layers : ℕ) (l : Layer) (ls : List Layer) (pos header : ℕ)
      → Valid l
      → All Valid ls
      → drop pos payload ≡ chain_wire l ls pt ++ body
      → Peeled layers (suc (length ls)) pos header
  unfolding peel
  peel-chain zero l ls pos header v vs e = inr (omega arith, refl)
  peel-chain (suc layers) l [] pos header v vs e =
      let (p, parsed, q) = parse_modex_layer_lem payload pos l pt body small v e in
      inl (omega arith, (p.next_pos, q.behind, rw parsed (rw (q.follows, other) refl)))
  peel-chain (suc layers) l (k ∷ ks) pos header v vs e =
      let (p, parsed, q) =
        parse_modex_layer_lem payload pos l ertmp_packet_type_modex (chain_wire k ks pt ++ body)
          (omega arith) v
          (e ∙ append_assoc (layer_wire l ertmp_packet_type_modex) (chain_wire k ks pt) body) in
      let high : (header / 2 ^ 4 * 2 ^ 4 + 7) / 2 ^ 4 * 2 ^ 4 ≡ header / 2 ^ 4 * 2 ^ 4 =
        omega arith in
      let step : peel payload (suc layers) pos header
          ≡ peel payload layers p.next_pos (header / 2 ^ 4 * 2 ^ 4 + 7) =
        rw parsed (rw q.follows refl) in
      elim (peel-chain layers k ks p.next_pos (header / 2 ^ 4 * 2 ^ 4 + 7) vs.0 vs.1 q.behind) [
        | inl (le, (end, there, run)) ↦
            inl (omega arith, (end, there, step ∙ run ∙ ap (λ h. some (end, h + pt)) high))
        | inr (lt, run) ↦ inr (omega arith, step ∙ run)
      ]

-- A packet in a chain of at most 32 ModEx layers is taken out of it: what is left is the packet's body
-- behind the first byte, whose low half is now the packet's own type. A packet in more layers than
-- that is left as it is. The first byte is that of an enhanced tag with a ModEx packet, the layers are
-- ones that the format can carry, and the receiver has the ModEx capability.
pub normalize-chain :
    (header : ℕ) (l : Layer) (ls : List Layer) (pt : ℕ) (body : List ℕ) (caps_ex_mask : ℕ)
    (frame_type : FrameType)
    → pt < 2 ^ 4
    → (pt == ertmp_packet_type_modex) ≡ false
    → Valid l
    → All Valid ls
    → header / 2 ^ 7 % 2 ≡ 1
    → header % 2 ^ 4 ≡ ertmp_packet_type_modex
    → (is_audio frame_type && not (header / 2 ^ 4 % 2 ^ 4 == 9)) ≡ false
    → caps_ex_mask / 2 ^ 2 % 2 ≡ 1
    → normalize_modex_payload_with_frame_type
        (header ∷ (chain_wire l ls pt ++ body))
        caps_ex_mask
        frame_type
      ≡ (if leb (suc (length ls)) max_modex_chain_layers
          then (header / 2 ^ 4 * 2 ^ 4 + pt) ∷ body
          else header ∷ (chain_wire l ls pt ++ body))
unfolding normalize_modex_payload_with_frame_type
normalize-chain header l ls pt body caps_ex_mask frame_type small other v vs enhanced wrapper tag
      able =
    let payload : List ℕ = header ∷ (chain_wire l ls pt ++ body) in
    rw (able, enhanced, wrapper, tag)
      (elim (peel-chain payload pt body small other 32 l ls 1 header v vs refl) [
        | inl (le, (end, there, run)) ↦
            rw (run, le→leb (suc (length ls)) 32 le)
              (ap (λ xs. (header / 2 ^ 4 * 2 ^ 4 + pt) ∷ xs) there)
        | inr (lt, run) ↦ rw (run, lt→leb (suc (length ls)) 32 lt) refl
      ])
