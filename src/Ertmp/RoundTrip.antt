-- ===== src/Ertmp/RoundTrip.antt =====
-- src/ertmp: a tag header that is written is parsed back.
use librtmp.Common.{
  ℕ, ◌+◌, ◌-◌, ◌*◌, ◌/◌, ◌%◌, ◌^◌, ◌≤◌, ◌<◌, ◌≡◌, refl, ap, ◌⊎◌, inl, inr, Bool, true, false, ◌&&◌,
  some, List, [], ◌∷◌, arith, ltb, leb, le→ltb, le→leb, ◌==◌, Bool-cases, length, drop,
}
use librtmp.Common.Result.{ok}
use librtmp.Types.{
  VideoHeader, AudioHeader, AudioCodec, pcm, adpcm, mp3, pcm_le, nelly16k, nelly8k, nelly, g711_a,
  g711_u, aac, speex, opus, Modex, timestamp_offset_nano,
}
use librtmp.Media.Modex.{layer_size, parse_modex_layer}
use librtmp.Ertmp.Exvideo.{
  exvideo_parse, exvideo_write, is_command, is_composition_time_codec, si24,
}
use librtmp.Ertmp.Exaudio.{exaudio_parse, exaudio_write, legacy_codec, codec_nibble, is_aac}
use librtmp.Ertmp.Modex.{modex_parse_prefix, modex_write}

-- A number of 24 bits with a sign, as a pattern of 32 bits.
abbrev pub Signed24 : ℕ → Type 0
Signed24 ct = (ct < 2 ^ 23) ⊎ ((2 ^ 32 - 2 ^ 23 ≤ ct) × (ct < 2 ^ 32))

si24_lem :
    (ct : ℕ) (xs ys : List ℕ)
    → Signed24 ct
    → si24 ((ct / 2 ^ 16 % 256) ∷ (ct / 2 ^ 8 % 256) ∷ (ct % 256) ∷ ys) 0 ≡ ct
unfolding si24
si24_lem ct xs ys (inl h) = ground arith
si24_lem ct xs ys (inr (h, k)) = ground arith

abbrev pub video_header : ℕ → ℕ → ℕ → ℕ → ℕ → ℕ → ℕ → ℕ → VideoHeader
video_header ft pt a b c d ct size = record {
  is_ex_header = 1;
  frame_type = ft;
  packet_type = pt;
  fourcc = a ∷ b ∷ c ∷ d ∷ 0 ∷ [];
  composition_time = ct;
  header_size = size;
}

abbrev pub needs_ct : ℕ → ℕ → ℕ → ℕ → ℕ → Bool
needs_ct pt a b c d = pt == 1 && is_composition_time_codec (a ∷ b ∷ c ∷ d ∷ 0 ∷ [])

module _ (ft pt a b c d ct size : ℕ) (buf : List ℕ) (hf : ft < 2 ^ 3) (hp : pt < 2 ^ 4)
    (plain : is_command ft pt ≡ false) (room : 8 ≤ length buf) where
  abbrev hdr : VideoHeader
  hdr = video_header ft pt a b c d ct size

  b0_parts :
      ((2 ^ 7 + ft % 2 ^ 3 * 2 ^ 4 + pt % 2 ^ 4) / 2 ^ 7 % 2 ≡ 1)
      × ((2 ^ 7 + ft % 2 ^ 3 * 2 ^ 4 + pt % 2 ^ 4) / 2 ^ 4 % 2 ^ 3 ≡ ft)
      × ((2 ^ 7 + ft % 2 ^ 3 * 2 ^ 4 + pt % 2 ^ 4) % 2 ^ 4 ≡ pt)
  b0_parts = (omega arith, omega arith, omega arith)

  abbrev b0 : ℕ
  b0 = 2 ^ 7 + ft % 2 ^ 3 * 2 ^ 4 + pt % 2 ^ 4

  -- The parser on the first byte and the FourCC.
  with_time :
      (t1 t2 t3 : ℕ) (ys : List ℕ)
      → needs_ct pt a b c d ≡ true
      → si24 (t1 ∷ t2 ∷ t3 ∷ ys) 0 ≡ ct
      → exvideo_parse (b0 ∷ a ∷ b ∷ c ∷ d ∷ t1 ∷ t2 ∷ t3 ∷ ys)
        ≡ (video_header ft pt a b c d ct 8, ok tt)
  unfolding exvideo_parse si24
  with_time t1 t2 t3 ys e s =
      let (e1, e2, e3) = b0_parts in
      let n : ltb (8 + length ys) 5 ≡ false = le→ltb (8 + length ys) 5 (omega arith) in
      let m : ltb (8 + length ys) 8 ≡ false = le→ltb (8 + length ys) 8 (omega arith) in
      let len : length (b0 ∷ a ∷ b ∷ c ∷ d ∷ t1 ∷ t2 ∷ t3 ∷ ys) ≡ 8 + length ys = omega arith in
      rw (e1, e2, e3, plain, len, n, e, m) (ap (λ t. (video_header ft pt a b c d t 8, ok tt)) s)

  without_time :
      (ys : List ℕ)
      → needs_ct pt a b c d ≡ false
      → exvideo_parse (b0 ∷ a ∷ b ∷ c ∷ d ∷ ys) ≡ (video_header ft pt a b c d 0 5, ok tt)
  unfolding exvideo_parse
  without_time ys e =
      let (e1, e2, e3) = b0_parts in
      let n : ltb (5 + length ys) 5 ≡ false = le→ltb (5 + length ys) 5 (omega arith) in
      let len : length (b0 ∷ a ∷ b ∷ c ∷ d ∷ ys) ≡ 5 + length ys = omega arith in
      rw (e1, e2, e3, plain, len, n, e) refl

  -- A video header with a FourCC that is not a command frame's is parsed back as it was written, with
  -- the bytes that were written as its size, whatever follows it in the buffer. The composition time
  -- is a signed number of 24 bits, which only a packet that has one carries, and the buffer has eight
  -- bytes.
  pub exvideo_round_trip :
      ((ct ≡ 0) ⊎ ((needs_ct pt a b c d ≡ true) × Signed24 ct))
      → exvideo_parse (exvideo_write hdr buf).1
        ≡ (video_header ft pt a b c d ct (exvideo_write hdr buf).0, ok tt)
  unfolding exvideo_write
  exvideo_round_trip time = elim (Bool-cases (needs_ct pt a b c d)) [
    | inl e ↦
        let signed : Signed24 ct = elim time [ inl z ↦ inl (omega arith) | inr (_, s) ↦ s ] in
        rw (plain, e, le→ltb (length buf) 8 room)
          (with_time (ct / 2 ^ 16 % 256) (ct / 2 ^ 8 % 256) (ct % 256) (drop 8 buf) e
            (si24_lem ct (drop 8 buf) (drop 8 buf) signed))
    | inr e ↦
        let zero_time : ct ≡ 0 = elim time [ inl z ↦ z | inr (y, _) ↦ absurd (cc (y, e)) ] in
        rw (plain, e, le→ltb (length buf) 5 (omega arith), zero_time) (without_time (drop 5 buf) e)
  ]

-- The header that a legacy tag is parsed to.
abbrev pub legacy : AudioCodec → ℕ → ℕ → ℕ → ℕ → ℕ → AudioHeader
legacy codec rate width channels packet size = record {
  is_ex_header = 0;
  packet_type = 0;
  fourcc = 0 ∷ 0 ∷ 0 ∷ 0 ∷ 0 ∷ [];
  audio_codec = codec;
  sample_rate = rate;
  sample_size = width;
  channels = channels;
  aac_packet_type = packet;
  header_size = size;
}

nibble_codec :
    (codec : AudioCodec) (n : ℕ)
    → codec_nibble codec ≡ some n
    → (legacy_codec n ≡ some codec) × (n < 12) × ((n == 9) ≡ false)
unfolding codec_nibble legacy_codec
nibble_codec pcm n e = ground arith
nibble_codec adpcm n e = ground arith
nibble_codec mp3 n e = ground arith
nibble_codec pcm_le n e = ground arith
nibble_codec nelly16k n e = ground arith
nibble_codec nelly8k n e = ground arith
nibble_codec nelly n e = ground arith
nibble_codec g711_a n e = ground arith
nibble_codec g711_u n e = ground arith
nibble_codec aac n e = ground arith
nibble_codec speex n e = ground arith
nibble_codec opus n e = absurd (cc e)

module _ (codec : AudioCodec) (rate width channels packet size n : ℕ) (buf : List ℕ)
    (known : codec_nibble codec ≡ some n) (hr : rate < 2 ^ 2) (hw : width < 2) (hc : channels < 2)
    (room : 2 ≤ length buf) where
  abbrev audio_hdr : AudioHeader
  audio_hdr = legacy codec rate width channels packet size

  abbrev a0 : ℕ
  a0 = n * 2 ^ 4 % 256 + rate % 2 ^ 2 * 2 ^ 2 + width % 2 * 2 + channels % 2

  a0_parts :
      (a0 / 2 ^ 4 % 2 ^ 4 ≡ n)
      × (a0 / 2 ^ 2 % 2 ^ 2 ≡ rate)
      × (a0 / 2 % 2 ≡ width)
      × (a0 % 2 ≡ channels)
  a0_parts =
      let (_, small, _) = nibble_codec codec n known in
      (omega arith, omega arith, omega arith, omega arith)

  parse_aac :
      (ys : List ℕ)
      → is_aac codec ≡ true
      → exaudio_parse (a0 ∷ packet ∷ ys) ≡ (legacy codec rate width channels packet 2, ok tt)
  unfolding exaudio_parse
  parse_aac ys e =
      let (e1, e2, e3, e4) = a0_parts in
      let (ec, _, nine) = nibble_codec codec n known in
      let len : leb 2 (length (a0 ∷ packet ∷ ys)) ≡ true = le→leb 2 _ (omega arith) in
      rw (e1, nine, ec, e2, e3, e4, e, len) refl

  parse_plain :
      (ys : List ℕ)
      → is_aac codec ≡ false
      → exaudio_parse (a0 ∷ ys) ≡ (legacy codec rate width channels 0 1, ok tt)
  unfolding exaudio_parse
  parse_plain ys e =
      let (e1, e2, e3, e4) = a0_parts in
      let (ec, _, nine) = nibble_codec codec n known in rw (e1, nine, ec, e2, e3, e4, e) refl

  -- A legacy audio header of any codec that legacy tags have, of fields that fit theirs, is parsed back
  -- as it was written, with the bytes that were written as its size; only AAC has a packet type. The
  -- buffer has two bytes.
  pub exaudio_round_trip :
      ((packet ≡ 0) ⊎ (is_aac codec ≡ true))
      → exaudio_parse (exaudio_write audio_hdr buf).1
        ≡ (legacy codec rate width channels packet (exaudio_write audio_hdr buf).0, ok tt)
  unfolding exaudio_write
  exaudio_round_trip kind = elim (Bool-cases (is_aac codec)) [
    | inl e ↦ rw (known, e, le→ltb (length buf) 2 room) (parse_aac (drop 2 buf) e)
    | inr e ↦
        let no_packet : packet ≡ 0 = elim kind [ inl z ↦ z | inr y ↦ absurd (cc (y, e)) ] in
        rw (known, e, le→ltb (length buf) 1 (omega arith), no_packet) (parse_plain (drop 1 buf) e)
  ]

-- A timestamp offset that is written is parsed back, its low 24 bits and the low half of the byte for
-- the next packet, and the five bytes are taken, whatever follows them in the buffer.
pub modex_round_trip :
    (m : Modex) (offset next : ℕ) (buf : List ℕ)
    → 5 ≤ length buf
    → modex_parse_prefix m
        (modex_write
          (record { modex_type = timestamp_offset_nano; offset = offset; next_packet_type = next })
          buf).1
      ≡ (
        record {
          modex_type = timestamp_offset_nano;
          offset = offset % 2 ^ 24;
          next_packet_type = next % 2 ^ 4;
        },
        ok 5,
      )
unfolding modex_parse_prefix modex_write parse_modex_layer layer_size
modex_round_trip m offset next buf room =
    let e : offset % 2 ^ 24 / 2 ^ 16 % 256 * 2 ^ 16
          + offset % 2 ^ 24 / 2 ^ 8 % 256 * 2 ^ 8
          + offset % 2 ^ 24 % 256
        ≡ offset % 2 ^ 24 =
      omega arith in
    let k : (0 * 2 ^ 4 + next % 2 ^ 4) % 2 ^ 4 ≡ next % 2 ^ 4 = omega arith in
    let z : (0 * 2 ^ 4 + next % 2 ^ 4) / 2 ^ 4 ≡ 0 = omega arith in
    rw (le→ltb (length buf) 5 room) (
      rw z (λ i. (
        record { modex_type = timestamp_offset_nano; offset = e i; next_packet_type = k i },
        ok 5,
      )))
