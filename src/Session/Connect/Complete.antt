-- ===== src/Session/Connect/Complete.antt =====
-- src/session/conn.rs: the server's side of the plain handshake, from the first byte to `Connected`.
use librtmp.Common.{
  ℕ, ◌+◌, ◌≤◌, ◌≡◌, refl, ap, ◌∙◌, true, false, some, List, [], ◌∷◌, ◌++◌, arith, length,
  length-append, append_assoc, get_elem?,
}
use librtmp.Common.Result.{Result, and_then}
use librtmp.Buffer.{Buffer, peek, buffer_max_size}
use librtmp.Buffer
use librtmp.Buffer.Wf.{IsValid}
use librtmp.Buffer.Codec.{put, Emits-put}
use librtmp.Handshake.Random.{Moment}
use librtmp.Handshake.Exact.{read_version_lem, server_read_c1_lem, last_read_lem}
use librtmp.Handshake.Exchange.{length-s1, length-echo}
use librtmp.Handshake.{
  server_wait_c0, server_wait_c1, server_wait_c2, done, simple, c1_requests_complex_handshake,
  answer, simple_s1, echo, server_init, server_read_c0,
}
use librtmp.Session.StateMachine.{ConnState}
use librtmp.Session.Connect.{
  pos, Conn, lent, taken_back, answered, after_c1, after_c0, after_c2, send_answer, do_handshake,
  do_handshake_recurse, handshake_step, first_or_0,
}

answer_plain :
    (c1 : List ℕ) (t : ℕ) (m1 m2 : Moment)
    → c1_requests_complex_handshake c1 ≡ false
    → answer c1 t m1 m2 ≡ (simple_s1 t m1, echo c1 t, simple)
unfolding answer
answer_plain c1 t m1 m2 plain = rw plain refl

-- The connection behind the first call: it waits for the client's second packet, `early` is unread and
-- `sent` is queued.
pub record Awaits (d : Conn) (early sent : List ℕ) : Type 0 where
  pub phase : d.state ≡ ConnState.handshake
  pub step : d.handshake.state ≡ server_wait_c2
  pub valid : IsValid d.recv_buffer
  pub unread : peek d.recv_buffer ≡ early
  pub queued : peek d.send_buffer ≡ sent

recurse-Awaits :
    (c : Conn) (fd t : ℕ) (m1 m2 : Moment) (c1 early : List ℕ)
    → c.state ≡ ConnState.handshake
    → c.client_fd ≡ some fd
    → IsValid c.handshake.out
    → c.handshake.out.owned ≡ true
    → IsValid c.send_buffer
    → c.send_buffer.owned ≡ true
    → length (peek c.send_buffer) + 3073 ≤ buffer_max_size
    → IsValid c.recv_buffer
    → length c1 ≡ 1536
    → c1_requests_complex_handshake c1 ≡ false
    → peek c.recv_buffer ≡ c1 ++ early
    → (d : Conn) × (do_handshake_recurse t m1 m2 c ≡ (d, pos 1))
      × Awaits d early (peek c.send_buffer ++ 3 ∷ (simple_s1 t m1 ++ echo c1 t))
unfolding do_handshake_recurse
recurse-Awaits c fd t m1 m2 c1 early st socket vo oo vs os room vr len plain e =
    let (q, run, wait, out, w, left, _) =
      server_read_c1_lem (lent c) vo oo c1 early t m1 m2 (simple_s1 t m1) (echo c1 t) simple vr len
        e (answer_plain c1 t m1 m2 plain) (length-s1 t m1) (length-echo c1 t len) in
    let total : length (peek q.hs.out) ≡ 3072 = omega (
      arith,
      ap length out.bytes,
      length-append (simple_s1 t m1) (echo c1 t),
      length-s1 t m1,
      length-echo c1 t len,
    ) in
    let (b1, r1, v1, seen1, o1) = Emits-put (3 ∷ []) c.send_buffer vs os (omega arith) in
    let (b2, r2, v2, seen2, o2) =
      Emits-put (peek q.hs.out) b1 v1 o1
        (omega (arith, ap length seen1, length-append (peek c.send_buffer) (3 ∷ []))) in
    (
      record (taken_back c q) {
        handshake = record q.hs { out = Buffer.reset q.hs.out };
        send_buffer = b2;
      },
      ap (after_c1 c) run
          ∙ ap (λ o. answered (taken_back c q) (send_answer o (peek q.hs.out) c.send_buffer)) socket
          ∙ ap
              (λ (x : Buffer × Result (Unit {0})).
                answered (taken_back c q) (and_then x (λ _. put (peek q.hs.out))))
              r1
          ∙ ap (answered (taken_back c q)) r2,
      record {
        phase = st;
        step = wait;
        valid = w;
        unread = left;
        queued =
            seen2
            ∙ ap (λ xs. xs ++ peek q.hs.out) seen1
            ∙ append_assoc (peek c.send_buffer) (3 ∷ []) (peek q.hs.out)
            ∙ ap (λ xs. peek c.send_buffer ++ 3 ∷ xs) out.bytes;
      },
    )

-- The two calls of `do_handshake`: the first one leads to `d`, and the second one, with the bytes of `b`
-- received, to `f`.
pub record Completes (c : Conn) (t : ℕ) (m1 m2 : Moment) (c1 early : List ℕ) (t' : ℕ)
    (n1 n2 : Moment) (b : Buffer) (rest : List ℕ) (d f : Conn) : Type 0 where
  pub first : do_handshake t m1 m2 c ≡ (d, pos 1)
  pub awaits : Awaits d early (peek c.send_buffer ++ 3 ∷ (simple_s1 t m1 ++ echo c1 t))
  pub second : do_handshake t' n1 n2 (record d { recv_buffer = b }) ≡ (f, pos 1)
  pub connected : f.state ≡ ConnState.connected
  pub ended : f.handshake.state ≡ done
  pub left : peek f.recv_buffer ≡ rest
  pub sent : f.send_buffer ≡ d.send_buffer

second_step :
    (d : Conn) (t : ℕ) (m1 m2 : Moment) (b : Buffer) (c2 rest : List ℕ)
    → d.handshake.state ≡ server_wait_c2
    → IsValid b
    → length c2 ≡ 1536
    → peek b ≡ c2 ++ rest
    → (f : Conn) × (do_handshake t m1 m2 (record d { recv_buffer = b }) ≡ (f, pos 1))
      × (f.state ≡ ConnState.connected)
      × (f.handshake.state ≡ done)
      × (peek f.recv_buffer ≡ rest)
      × (f.send_buffer ≡ d.send_buffer)
unfolding do_handshake
second_step d t m1 m2 b c2 rest wait v len e =
    let got : Conn = record d { recv_buffer = b } in
    let (b', run, _, left) = last_read_lem (lent got) c2 rest v len e in
    (
      record got {
        handshake = record d.handshake { state = done };
        recv_buffer = b';
        state = ConnState.connected;
      },
      ap (λ s. handshake_step t m1 m2 s got) wait ∙ ap (after_c2 got) run,
      refl,
      refl,
      left,
      refl,
    )

-- A connection with a socket, whose handshake has not begun and whose buffers are well formed and can
-- take the answer, has received the version byte, a first packet that asks for the plain handshake,
-- and maybe more. `do_handshake` then returns 1 and has queued the version byte and its two packets,
-- the second one an echo, behind what was to be sent. Called again when the client's second packet is
-- there, with any times and random bytes, it returns 1, the connection is `Connected`, nothing else is
-- queued, and just that packet has been taken.
pub do_handshake-Completes :
    (c : Conn) (fd t : ℕ) (m1 m2 : Moment) (c1 early : List ℕ) (t' : ℕ) (n1 n2 : Moment)
    (b : Buffer) (c2 rest : List ℕ)
    → c.handshake.state ≡ server_wait_c0
    → c.client_fd ≡ some fd
    → IsValid c.handshake.out
    → c.handshake.out.owned ≡ true
    → IsValid c.send_buffer
    → c.send_buffer.owned ≡ true
    → length (peek c.send_buffer) + 3073 ≤ buffer_max_size
    → IsValid c.recv_buffer
    → length c1 ≡ 1536
    → c1_requests_complex_handshake c1 ≡ false
    → peek c.recv_buffer ≡ 3 ∷ (c1 ++ early)
    → IsValid b
    → length c2 ≡ 1536
    → peek b ≡ c2 ++ rest
    → (d : Conn) × (f : Conn) × Completes c t m1 m2 c1 early t' n1 n2 b rest d f
unfolding do_handshake server_read_c0 server_init
do_handshake-Completes c fd t m1 m2 c1 early t' n1 n2 b c2 rest st socket vo oo vs os room vr len
      plain e vb len' e' =
    let started : Conn = record c { handshake = server_init c.handshake } in
    let (begun_buf, run, v, left) =
      read_version_lem server_wait_c1 (lent started) (c1 ++ early) vr e in
    let begun : Conn = record c {
      handshake = record (server_init c.handshake) { version = 3; state = server_wait_c1 };
      recv_buffer = begun_buf;
      state = ConnState.handshake;
    } in
    let (d, run', awaits) =
      recurse-Awaits begun fd t m1 m2 c1 early refl socket vo oo vs os room v len plain left in
    let (f, run'', state_eq, hs_eq, left', sent') =
      second_step d t' n1 n2 b c2 rest awaits.step vb len' e' in
    (
      d,
      f,
      record {
        first =
            ap (λ s. handshake_step t m1 m2 s c) st
            ∙ ap (after_c0 t m1 m2 started (first_or_0 (get_elem? (peek c.recv_buffer) 0))) run
            ∙ run';
        awaits = awaits;
        second = run'';
        connected = state_eq;
        ended = hs_eq;
        left = left';
        sent = sent';
      },
    )
