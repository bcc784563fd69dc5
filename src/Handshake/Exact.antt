-- ===== src/Handshake/Exact.antt =====
-- src/handshake.rs: what each step of the handshake takes and queues.
use librtmp.Common.{
  ℕ, ◌+◌, ◌≤◌, ◌<◌, ◌≡◌, refl, sym, ap, ◌∙◌, true, List, [], ◌∷◌, ◌++◌, arith, lt→ltb, le→ltb,
  length, take, length-append,
}
use librtmp.Common.Result.{Result, ok, err, ErrorCode}
use librtmp.Bytes.{ntoh32}
use librtmp.Buffer.{Buffer, available, peek, read, buffer_max_size}
use librtmp.Buffer
use librtmp.Buffer.Wf.{IsValid, length-peek}
use librtmp.Buffer.Queue.{reset_lem}
use librtmp.Buffer.Codec.{put, Emits-put, Parses-read, Parses-map_err}
use librtmp.Handshake.Random.{Moment}
use librtmp.Handshake.{
  Handshake, HandshakeMode, HandshakeState, server_wait_c2, client_wait_s2, client_wait_s0, done,
  Peer, into_buf, into_out, read_handshake, read_version, queue_answer, server_read_c1_mode,
  server_read_c2, client_read_s1, client_read_s2, client_generate_c0c1, c0c1, answer, echo,
}

-- The queued output is `ys`, in a buffer that can grow.
pub record Out (hs : Handshake) (ys : List ℕ) : Type 0 where
  pub valid : IsValid hs.out
  pub growable : hs.out.owned ≡ true
  pub bytes : peek hs.out ≡ ys

-- A read of 1536 bytes that are not there fails.
read_handshake_short :
    (p : Peer) → available p.buf < 1536 → read_handshake p ≡ (p, err ErrorCode.io)
unfolding read_handshake
read_handshake_short p h = rw (lt→ltb (available p.buf) 1536 h) refl

-- With fewer than 1536 bytes there each of the four reads asks for more and changes nothing, neither
-- the buffer nor the handshake.
pub short_handshake_waits :
    (p : Peer) (t : ℕ) (m1 m2 : Moment)
    → available p.buf < 1536
    → (server_read_c1_mode t m1 m2 p ≡ (p, err ErrorCode.io))
      × (server_read_c2 p ≡ (p, err ErrorCode.io))
      × (client_read_s1 t p ≡ (p, err ErrorCode.io))
      × (client_read_s2 p ≡ (p, err ErrorCode.io))
unfolding server_read_c1_mode server_read_c2 client_read_s1 client_read_s2
short_handshake_waits p t m1 m2 h =
    let e = read_handshake_short p h in (rw e refl, rw e refl, rw e refl, rw e refl)

pub read_handshake_lem :
    (p : Peer) (xs ys : List ℕ)
    → IsValid p.buf
    → length xs ≡ 1536
    → peek p.buf ≡ xs ++ ys
    → (b : Buffer) × (read_handshake p ≡ (record { hs = p.hs; buf = b }, ok xs))
      × IsValid b
      × (peek b ≡ ys)
unfolding read_handshake
read_handshake_lem p xs ys v len e =
    let (b, r, w, seen, _) =
      Parses-map_err ErrorCode.io (read 1536) (xs ++ ys) ys xs (Parses-read 1536 xs ys (sym len))
        p.buf v e in
    let enough : 1536 ≤ available p.buf =
      omega (arith, length-peek p.buf v, ap length e, length-append xs ys, len) in
    (
      b,
      rw (le→ltb (available p.buf) 1536 enough)
          (ap (λ (t : Buffer × Result (List ℕ)). into_buf p.hs t) r),
      w,
      seen,
    )

pub read_version_lem :
    (next : HandshakeState) (p : Peer) (ys : List ℕ)
    → IsValid p.buf
    → peek p.buf ≡ 3 ∷ ys
    → (b : Buffer) × (read_version next p
        ≡ (record { hs = record p.hs { version = 3; state = next }; buf = b }, ok tt))
      × IsValid b
      × (peek b ≡ ys)
unfolding read_version
read_version_lem next p ys v e =
    let (b, r, w, seen, _) =
      Parses-map_err ErrorCode.io (read 1) (3 ∷ ys) ys (3 ∷ []) (Parses-read 1 (3 ∷ []) ys refl)
        p.buf v e in
    (b, rw r refl, w, seen)

-- Bytes that are queued behind what is there.
queue_lem :
    (p : Peer) (xs ys : List ℕ)
    → Out p.hs xs
    → length xs + length ys ≤ buffer_max_size
    → (b : Buffer) × (into_out p (put ys p.hs.out)
        ≡ (record p { hs = record p.hs { out = b } }, ok tt))
      × Out (record p.hs { out = b }) (xs ++ ys)
queue_lem p xs ys o room =
    let (b, r, w, seen, own) =
      Emits-put ys p.hs.out o.valid o.growable (omega (arith, ap length o.bytes)) in
    (
      b,
      ap (λ (t : Buffer × Result (Unit {0})). into_out p t) r,
      record { valid = w; growable = own; bytes = seen ∙ ap (λ t. t ++ ys) o.bytes },
    )

-- The output is emptied first.
reset-Out :
    (hs : Handshake)
    → IsValid hs.out
    → hs.out.owned ≡ true
    → Out (record hs { out = Buffer.reset hs.out }) []
reset-Out hs v o =
    let (w, e, own) = reset_lem hs.out v in record { valid = w; growable = own ∙ o; bytes = e }

module _ (p : Peer) (v : IsValid p.hs.out) (o : p.hs.out.owned ≡ true) where
  pub queue_answer_lem :
      (s1 s2 : List ℕ) (mode : HandshakeMode)
      → length s1 ≡ 1536
      → length s2 ≡ 1536
      → (b : Buffer) × (queue_answer (s1, s2, mode) p
          ≡ (record { hs = record p.hs { out = b; state = server_wait_c2 }; buf = p.buf }, ok mode))
        × Out (record p.hs { out = b; state = server_wait_c2 }) (s1 ++ s2)
  unfolding queue_answer
  queue_answer_lem s1 s2 mode l1 l2 =
      let cleared : Peer = record p { hs = record p.hs { out = Buffer.reset p.hs.out } } in
      let (b1, r1, o1) = queue_lem cleared [] s1 (reset-Out p.hs v o) (omega arith) in
      let (b2, r2, o2) =
        queue_lem (record p { hs = record p.hs { out = b1 } }) s1 s2 o1 (omega arith) in
      (b2, rw (r1, r2) refl, record { valid = o2.valid; growable = o2.growable; bytes = o2.bytes })

  pub client_generate_lem :
      (t : ℕ) (m : Moment)
      → length (c0c1 t m) ≡ 1537
      → (b : Buffer) × (client_generate_c0c1 t m p ≡ (
        record { hs = record p.hs { peer_time = t; out = b; state = client_wait_s0 }; buf = p.buf },
        ok tt,
      ))
        × Out (record p.hs { peer_time = t; out = b; state = client_wait_s0 }) (c0c1 t m)
  unfolding client_generate_c0c1
  client_generate_lem t m len =
      let cleared : Peer = record p {
        hs = record p.hs { peer_time = t; out = Buffer.reset p.hs.out };
      } in
      let (b, r, q) =
        queue_lem cleared [] (c0c1 t m)
          (let c = reset-Out p.hs v o in
            record { valid = c.valid; growable = c.growable; bytes = c.bytes })
          (omega (arith, len)) in
      (b, rw r refl, record { valid = q.valid; growable = q.growable; bytes = q.bytes })

  -- The server takes the first packet and queues both of its own.
  pub server_read_c1_lem :
      (c1 ys : List ℕ) (t : ℕ) (m1 m2 : Moment) (s1 s2 : List ℕ) (mode : HandshakeMode)
      → IsValid p.buf
      → length c1 ≡ 1536
      → peek p.buf ≡ c1 ++ ys
      → answer c1 t m1 m2 ≡ (s1, s2, mode)
      → length s1 ≡ 1536
      → length s2 ≡ 1536
      → (q : Peer) × (server_read_c1_mode t m1 m2 p ≡ (q, ok mode))
        × (q.hs.state ≡ server_wait_c2)
        × Out q.hs (s1 ++ s2)
        × IsValid q.buf
        × (peek q.buf ≡ ys)
        × (q.hs.version ≡ p.hs.version)
  unfolding server_read_c1_mode queue_answer
  server_read_c1_lem c1 ys t m1 m2 s1 s2 mode w len e ea l1 l2 =
      let (b, r, wb, seen) = read_handshake_lem p c1 ys w len e in
      let cleared : Peer = record {
        hs = record p.hs { peer_time = ntoh32 (take 4 c1); out = Buffer.reset p.hs.out };
        buf = b;
      } in
      let c = reset-Out p.hs v o in
      let (b1, r1, o1) =
        queue_lem cleared [] s1 (record { valid = c.valid; growable = c.growable; bytes = c.bytes })
          (omega arith) in
      let (b2, r2, o2) =
        queue_lem (record cleared { hs = record cleared.hs { out = b1 } }) s1 s2 o1 (omega arith) in
      (
        record { hs = record cleared.hs { out = b2; state = server_wait_c2 }; buf = b },
        rw (r, ea, r1, r2) refl,
        refl,
        record { valid = o2.valid; growable = o2.growable; bytes = o2.bytes },
        wb,
        seen,
        refl,
      )

  -- The client takes the first packet and queues its second one.
  pub client_read_s1_lem :
      (s1 ys : List ℕ) (t : ℕ)
      → IsValid p.buf
      → length s1 ≡ 1536
      → peek p.buf ≡ s1 ++ ys
      → length (echo s1 t) ≡ 1536
      → (q : Peer) × (client_read_s1 t p ≡ (q, ok tt))
        × (q.hs.state ≡ client_wait_s2)
        × Out q.hs (echo s1 t)
        × IsValid q.buf
        × (peek q.buf ≡ ys)
        × (q.hs.version ≡ p.hs.version)
  unfolding client_read_s1
  client_read_s1_lem s1 ys t w len e le =
      let (b, r, wb, seen) = read_handshake_lem p s1 ys w len e in
      let cleared : Peer = record {
        hs = record p.hs { peer_time = ntoh32 (take 4 s1); out = Buffer.reset p.hs.out };
        buf = b;
      } in
      let c = reset-Out p.hs v o in
      let (b1, r1, o1) =
        queue_lem cleared [] (echo s1 t)
          (record { valid = c.valid; growable = c.growable; bytes = c.bytes })
          (omega (arith, le)) in
      (
        record { hs = record cleared.hs { out = b1; state = client_wait_s2 }; buf = b },
        rw (r, r1) refl,
        refl,
        record { valid = o1.valid; growable = o1.growable; bytes = o1.bytes },
        wb,
        seen,
        refl,
      )

-- The last read of either side ends the handshake.
pub last_read_lem :
    (p : Peer) (xs ys : List ℕ)
    → IsValid p.buf
    → length xs ≡ 1536
    → peek p.buf ≡ xs ++ ys
    → (b : Buffer) × (server_read_c2 p
        ≡ (record { hs = record p.hs { state = done }; buf = b }, ok tt))
      × (client_read_s2 p ≡ (record { hs = record p.hs { state = done }; buf = b }, ok tt))
      × (peek b ≡ ys)
unfolding server_read_c2 client_read_s2
last_read_lem p xs ys v len e =
    let (b, r, w, seen) = read_handshake_lem p xs ys v len e in (b, rw r refl, rw r refl, seen)
