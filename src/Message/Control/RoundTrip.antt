-- ===== src/Message/Control/RoundTrip.antt =====
-- src/message/control.rs: what an encoder writes, its decoder reads, and what a decoder accepts.
use librtmp.Common.{
  ℕ, ◌^◌, ◌+◌, ◌≤◌, ◌<◌, min, ◌≡◌, refl, ◌⊎◌, true, none, some, List, [], ◌∷◌, ◌++◌, arith, length,
}
use librtmp.Common.Result.{Result, ok, M, ◌>>◌}
use librtmp.Bytes.{to_be16, to_be32}
use librtmp.Bytes.Order.{ntoh32-to_be32}
use librtmp.Buffer.{Buffer, peek, available, buffer_max_size}
use librtmp.Buffer.Wf.{IsValid, length-peek}
use librtmp.Buffer.Codec.{Emits, Emits-put, Emits-seq, put}
use librtmp.Message.Control.{
  write_set_chunk_size, write_abort_message, write_acknowledgement, write_window_ack_size,
  write_set_peer_bandwidth, write_user_control_stream_begin, write_user_control_stream_eof,
  write_user_control_set_buffer_length, write_user_control_ping_request,
  write_user_control_ping_response, read_set_chunk_size, read_abort_message,
  read_acknowledgement_size, read_window_ack_size, read_set_peer_bandwidth, read_user_control,
  max_peer_chunk_size, uctrl_stream_begin, uctrl_stream_eof, uctrl_set_buffer_length,
  uctrl_ping_request, uctrl_ping_response,
}

-- A writer emits a short payload that a decoder turns into `a`.
abbrev RoundTrip {ℓ} : {A : Type ℓ} → M Buffer (Unit {0}) → (List ℕ → Result A) → A → Type ℓ
RoundTrip w r a = (payload : List ℕ) × Emits w payload × (length payload ≤ 10) × (r payload ≡ ok a)

-- The writer has added a payload to `b`, and the decoder turns that payload into `a`.
abbrev pub Sent {ℓ} :
    {A : Type ℓ} → Buffer → Buffer × Result (Unit {0}) → (List ℕ → Result A) → A → Type ℓ
Sent b (c, res) r a =
    (payload : List ℕ) × (res ≡ ok tt)
    × IsValid c
    × (peek c ≡ peek b ++ payload)
    × (r payload ≡ ok a)

word-RoundTrip {ℓ} :
    {A : Type ℓ} (n : ℕ) (r : List ℕ → Result A) (a : A)
    → r (to_be32 n) ≡ ok a
    → RoundTrip (put (to_be32 n)) r a
word-RoundTrip n r a e = (to_be32 n, Emits-put (to_be32 n), omega arith, e)

-- A user control message with one parameter.
event-RoundTrip :
    (event n : ℕ)
    → event < 256
    → n < 2 ^ 32
    → RoundTrip
        (put (to_be16 event) >> put (to_be32 n))
        (λ p. read_user_control p true)
        (event, n, none)
unfolding read_user_control
event-RoundTrip event n h k = (
  to_be16 event ++ to_be32 n,
  Emits-seq _ _ (to_be16 event) (to_be32 n) (Emits-put _) (Emits-put _),
  omega arith,
  ground (arith, ntoh32-to_be32 n []),
)

bandwidth-RoundTrip :
    (win limit : ℕ)
    → win < 2 ^ 32
    → RoundTrip (write_set_peer_bandwidth win limit) read_set_peer_bandwidth (win, limit)
unfolding write_set_peer_bandwidth read_set_peer_bandwidth
bandwidth-RoundTrip win limit h = (
  to_be32 win ++ (limit ∷ []),
  Emits-seq _ _ (to_be32 win) (limit ∷ []) (Emits-put _) (Emits-put _),
  omega arith,
  ground (arith, ntoh32-to_be32 win (limit ∷ [])),
)

buffer_length-RoundTrip :
    (sid ms : ℕ)
    → sid < 2 ^ 32
    → ms < 2 ^ 32
    → RoundTrip
        (write_user_control_set_buffer_length sid ms)
        (λ p. read_user_control p true)
        (uctrl_set_buffer_length, sid, some ms)
unfolding write_user_control_set_buffer_length read_user_control
buffer_length-RoundTrip sid ms h k = (
  to_be16 uctrl_set_buffer_length ++ (to_be32 sid ++ to_be32 ms),
  Emits-seq _ _ (to_be16 uctrl_set_buffer_length) (to_be32 sid ++ to_be32 ms) (Emits-put _)
      (Emits-seq _ _ (to_be32 sid) (to_be32 ms) (Emits-put _) (Emits-put _)),
  omega arith,
  ground (arith, ntoh32-to_be32 sid (to_be32 ms), ntoh32-to_be32 ms []),
)

module _ (b : Buffer) (v : IsValid b) (own : b.owned ≡ true)
    (room : available b + 10 ≤ buffer_max_size) where
  sent {ℓ} :
      {A : Type ℓ} (w : M Buffer (Unit {0})) (r : List ℕ → Result A) (a : A)
      → RoundTrip w r a
      → Sent b (w b) r a
  sent w r a (payload, p, short, e) =
      let (c, k, cv, seen, _) = p b v own (omega (arith, length-peek b v)) in
      rw k (payload, refl, cv, seen, e)

  -- A chunk size that a peer may announce is read as it was written, up to the largest that matters.
  pub set_chunk_size_round_trip :
      (size : ℕ)
      → 128 ≤ size
      → size < 2 ^ 31
      → Sent b (write_set_chunk_size size b) read_set_chunk_size (min size max_peer_chunk_size)
  unfolding write_set_chunk_size read_set_chunk_size
  set_chunk_size_round_trip size lo hi = sent _ read_set_chunk_size _ (
      word-RoundTrip size read_set_chunk_size (min size max_peer_chunk_size)
        (ground (arith, ntoh32-to_be32 size [])))

  -- The three other messages of one word are read as they were written; a window that is not 0 must
  -- be 1024 or more.
  pub word_messages_round_trip :
      (n : ℕ)
      → n < 2 ^ 32
      → (n ≡ 0) ⊎ (1024 ≤ n)
      → Sent b (write_abort_message n b) read_abort_message n
        × Sent b (write_acknowledgement n b) read_acknowledgement_size n
        × Sent b (write_window_ack_size n b) read_window_ack_size n
  unfolding write_abort_message write_acknowledgement write_window_ack_size read_abort_message
      read_acknowledgement_size read_window_ack_size
  word_messages_round_trip n h k = (
    sent _ read_abort_message n
        (word-RoundTrip n read_abort_message n (ground (arith, ntoh32-to_be32 n []))),
    sent _ read_acknowledgement_size n
        (word-RoundTrip n read_acknowledgement_size n (ground (arith, ntoh32-to_be32 n []))),
    sent _ read_window_ack_size n
        (word-RoundTrip n read_window_ack_size n (ground (arith, ntoh32-to_be32 n []))),
  )

  -- A peer-bandwidth message is read as it was written.
  pub set_peer_bandwidth_round_trip :
      (win limit : ℕ)
      → win < 2 ^ 32
      → Sent b (write_set_peer_bandwidth win limit b) read_set_peer_bandwidth (win, limit)
  set_peer_bandwidth_round_trip win limit h = sent _ _ _ (bandwidth-RoundTrip win limit h)

  -- Every user control message is read as it was written: its event, its parameter, and for the
  -- buffer length the second parameter too.
  pub user_control_round_trip :
      (n ms : ℕ)
      → n < 2 ^ 32
      → ms < 2 ^ 32
      → Sent b
          (write_user_control_stream_begin n b)
          (λ p. read_user_control p true)
          (uctrl_stream_begin, n, none)
        × Sent b
            (write_user_control_stream_eof n b)
            (λ p. read_user_control p true)
            (uctrl_stream_eof, n, none)
        × Sent b
            (write_user_control_ping_request n b)
            (λ p. read_user_control p true)
            (uctrl_ping_request, n, none)
        × Sent b
            (write_user_control_ping_response n b)
            (λ p. read_user_control p true)
            (uctrl_ping_response, n, none)
        × Sent b
            (write_user_control_set_buffer_length n ms b)
            (λ p. read_user_control p true)
            (uctrl_set_buffer_length, n, some ms)
  unfolding write_user_control_stream_begin write_user_control_stream_eof
      write_user_control_ping_request write_user_control_ping_response
  user_control_round_trip n ms h k = (
    sent _ _ _ (event-RoundTrip uctrl_stream_begin n (omega arith) h),
    sent _ _ _ (event-RoundTrip uctrl_stream_eof n (omega arith) h),
    sent _ _ _ (event-RoundTrip uctrl_ping_request n (omega arith) h),
    sent _ _ _ (event-RoundTrip uctrl_ping_response n (omega arith) h),
    sent _ _ _ (buffer_length-RoundTrip n ms h k),
  )

-- What `read_set_chunk_size` accepts is a chunk size that the registry takes.
pub read_set_chunk_size_range :
    (payload : List ℕ) (size : ℕ)
    → read_set_chunk_size payload ≡ ok size
    → (128 ≤ size) × (size ≤ max_peer_chunk_size)
unfolding read_set_chunk_size
read_set_chunk_size_range payload size h = ground arith
