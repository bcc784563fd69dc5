-- ===== src/Handshake/Exchange.antt =====
-- src/handshake.rs: a client and a server of this library complete the handshake with each other.
use librtmp.Common.{
  ℕ, ◌≡◌, refl, sym, ap, ◌∙◌, true, List, [], ◌∷◌, ◌++◌, arith, le→leb, length, replicate,
  append-nil,
}
use librtmp.Common.Result.{Result, ok, M, ◌>>◌, and_then}
use librtmp.Bytes.{to_be32}
use librtmp.Buffer.{peek, from_slice}
use librtmp.Buffer.Wf.{IsValid, length-splice}
use librtmp.Buffer.New.{from_slice-IsValid, peek-from_slice}
use librtmp.Handshake.Random.{Moment, fill_random, length-fill_random}
use librtmp.Handshake.Exact.{
  Out, read_version_lem, client_generate_lem, server_read_c1_lem, client_read_s1_lem, last_read_lem,
}
use librtmp.Handshake.{
  Handshake, HandshakeMode, simple, server_wait_c1, client_wait_s1, client_wait_s0, done, Peer,
  c1_requests_complex_handshake, server_read_c0, server_read_c1_mode, server_read_c2,
  client_read_s0, client_read_s1, client_read_s2, client_generate_c0c1, c0c1, answer, echo,
  simple_s1,
}

-- What the server does with the version and the first packet of the client, and the client with the
-- version and both packets of the server.
abbrev pub server_turn : ℕ → Moment → Moment → M Peer HandshakeMode
server_turn t m1 m2 = do server_read_c0; server_read_c1_mode t m1 m2

abbrev pub client_turn : ℕ → M Peer (Unit {0})
client_turn t = do client_read_s0; client_read_s1 t; client_read_s2

-- A peer to which `bytes` have been sent.
abbrev pub receives : Handshake → List ℕ → Peer
receives hs bytes = record { hs = hs; buf = from_slice bytes }

-- The first packet of the client, without the version.
abbrev pub c1_of : ℕ → Moment → List ℕ
c1_of t m = to_be32 t ++ (replicate 4 0 ++ fill_random m 1528)

length-c1 : (t : ℕ) (m : Moment) → length (c1_of t m) ≡ 1536
length-c1 t m = omega (arith, length-fill_random m 1528)

c0c1_lem : (t : ℕ) (m : Moment) → c0c1 t m ≡ 3 ∷ c1_of t m
unfolding c0c1
c0c1_lem t m = refl

pub length-s1 : (t : ℕ) (m : Moment) → length (simple_s1 t m) ≡ 1536
unfolding simple_s1
length-s1 t m = length-c1 t m

pub length-echo : (xs : List ℕ) (t : ℕ) → length xs ≡ 1536 → length (echo xs t) ≡ 1536
unfolding echo
length-echo xs t e = length-splice xs (to_be32 t) 4 (omega (arith, e)) ∙ e

-- The first packet of a client of this library asks for the plain handshake.
answer_lem :
    (ct st : ℕ) (mc m1 m2 : Moment)
    → answer (c1_of ct mc) st m1 m2 ≡ (simple_s1 st m1, echo (c1_of ct mc) st, simple)
unfolding answer c1_requests_complex_handshake
answer_lem ct st mc m1 m2 =
    rw (le→leb 1536 (length (c1_of ct mc)) (omega (arith, length-c1 ct mc))) refl

module _ (hs : Handshake) (v : IsValid hs.out) (o : hs.out.owned ≡ true) where
  server_turn_lem :
      (bytes c1 s1 s2 : List ℕ) (mode : HandshakeMode) (t : ℕ) (m1 m2 : Moment)
      → bytes ≡ 3 ∷ c1
      → length c1 ≡ 1536
      → answer c1 t m1 m2 ≡ (s1, s2, mode)
      → length s1 ≡ 1536
      → length s2 ≡ 1536
      → (q : Peer) × (server_turn t m1 m2 (receives hs bytes) ≡ (q, ok mode)) × Out q.hs (s1 ++ s2)
  unfolding server_read_c0
  server_turn_lem bytes c1 s1 s2 mode t m1 m2 e len ea l1 l2 =
      let (b, r, w, seen) =
        read_version_lem server_wait_c1 (receives hs bytes) c1 (from_slice-IsValid bytes)
          (peek-from_slice bytes ∙ e) in
      let (q, run, _, out, _, _, _) =
        server_read_c1_lem
          (record { hs = record hs { version = 3; state = server_wait_c1 }; buf = b }) v o c1 [] t
          m1 m2 s1 s2 mode w len (seen ∙ sym (append-nil c1)) ea l1 l2 in
      (
        q,
        ap (λ (x : Peer × Result (Unit {0})). and_then x (λ _. server_read_c1_mode t m1 m2)) r
            ∙ run,
        out,
      )

  client_turn_lem :
      (bytes s1 s2 : List ℕ) (t : ℕ)
      → bytes ≡ s1 ++ s2
      → length s1 ≡ 1536
      → length s2 ≡ 1536
      → length (echo s1 t) ≡ 1536
      → (q : Peer) × (client_turn t (receives hs (3 ∷ bytes)) ≡ (q, ok tt))
        × Out q.hs (echo s1 t)
        × (q.hs.state ≡ done)
        × (peek q.buf ≡ [])
  unfolding client_read_s0
  client_turn_lem bytes s1 s2 t e l1 l2 le =
      let (b, r, w, seen) =
        read_version_lem client_wait_s1 (receives hs (3 ∷ bytes)) bytes
          (from_slice-IsValid (3 ∷ bytes)) (peek-from_slice (3 ∷ bytes)) in
      let (q, run, _, out, wq, left, _) =
        client_read_s1_lem
          (record { hs = record hs { version = 3; state = client_wait_s1 }; buf = b }) v o s1 s2 t w
          l1 (seen ∙ e) le in
      let (b', _, run', left') = last_read_lem q s2 [] wq l2 (left ∙ sym (append-nil s2)) in
      (
        record { hs = record q.hs { state = done }; buf = b' },
        ap (λ (x : Peer × Result (Unit {0})). and_then x (λ _. client_read_s1 t >> client_read_s2))
              r
            ∙ ap (λ (x : Peer × Result (Unit {0})). and_then x (λ _. client_read_s2)) run
            ∙ run',
        record { valid = out.valid; growable = out.growable; bytes = out.bytes },
        refl,
        left',
      )

-- How the exchange ends.
pub record Exchanged (ct st ct2 : ℕ) (mc m1 m2 : Moment) (client server : Handshake)
    (cg ce se s2 : Peer) : Type 0 where
  pub generated : client_generate_c0c1 ct mc (receives client []) ≡ (cg, ok tt)
  pub served : server_turn st m1 m2 (receives server (peek cg.hs.out)) ≡ (se, ok simple)
  pub answered : client_turn ct2 (receives cg.hs (3 ∷ peek se.hs.out)) ≡ (ce, ok tt)
  pub finished : server_read_c2 (receives se.hs (peek ce.hs.out)) ≡ (s2, ok tt)
  pub client_done : ce.hs.state ≡ done
  pub server_done : s2.hs.state ≡ done
  pub client_took_all : peek ce.buf ≡ []
  pub server_took_all : peek s2.buf ≡ []
  -- Each second packet repeats the first one of the other side with the sender's time.
  pub s2_echo : peek se.hs.out ≡ simple_s1 st m1 ++ echo (c1_of ct mc) st
  pub c2_echo : peek ce.hs.out ≡ echo (simple_s1 st m1) ct2

-- Whatever the clocks and the random bytes are, a client and a server that can queue their output
-- complete the plain handshake with each other: each takes what the other has sent to its last byte,
-- the second packets repeat the other side's first one with the sender's time in it, and both are done.
-- The version byte is put in front of the server's output.
pub exchange-Exchanged :
    (ct st ct2 : ℕ) (mc m1 m2 : Moment) (client server : Handshake)
    → IsValid client.out
    → client.out.owned ≡ true
    → IsValid server.out
    → server.out.owned ≡ true
    → (cg ce se s2 : Peer) × Exchanged ct st ct2 mc m1 m2 client server cg ce se s2
exchange-Exchanged ct st ct2 mc m1 m2 client server cv co sv so =
    let l1 = length-c1 ct mc in
    let ls = length-s1 st m1 in
    let l2 = length-echo (c1_of ct mc) st l1 in
    let l3 = length-echo (simple_s1 st m1) ct2 ls in
    let (b0, r0, out0) =
      client_generate_lem (receives client []) cv co ct mc
        (ap length (c0c1_lem ct mc) ∙ omega (arith, l1)) in
    let (se, r1, out1) =
      server_turn_lem server sv so (peek b0) (c1_of ct mc) (simple_s1 st m1) (echo (c1_of ct mc) st)
        simple st m1 m2 (out0.bytes ∙ c0c1_lem ct mc) l1 (answer_lem ct st mc m1 m2) ls l2 in
    let (ce, r2, out2, ended, left) =
      client_turn_lem (record client { peer_time = ct; out = b0; state = client_wait_s0 })
        out0.valid out0.growable (peek se.hs.out) (simple_s1 st m1) (echo (c1_of ct mc) st) ct2
        out1.bytes ls l2 l3 in
    let (b3, r3, _, left') =
      last_read_lem (receives se.hs (peek ce.hs.out)) (echo (simple_s1 st m1) ct2) []
        (from_slice-IsValid (peek ce.hs.out)) l3
        (peek-from_slice (peek ce.hs.out)
          ∙ out2.bytes
          ∙ sym (append-nil (echo (simple_s1 st m1) ct2))) in
    (
      record {
        hs = record client { peer_time = ct; out = b0; state = client_wait_s0 };
        buf = from_slice [];
      },
      ce,
      se,
      record { hs = record se.hs { state = done }; buf = b3 },
      record {
        generated = r0;
        served = r1;
        answered = r2;
        finished = r3;
        client_done = ended;
        server_done = refl;
        client_took_all = left;
        server_took_all = left';
        s2_echo = out1.bytes;
        c2_echo = out2.bytes;
      },
    )
