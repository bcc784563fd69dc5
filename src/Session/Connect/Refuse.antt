-- ===== src/Session/Connect/Refuse.antt =====
-- src/session/conn.rs: a peer that does not begin with the version of RTMP, and one that is not ready.
use librtmp.Common.{
  ℕ, ◌<◌, ◌≡◌, refl, ap, ◌∙◌, ◌⊎◌, inl, inr, false, Option, some, none, List, [], ◌∷◌, ◌==◌,
  get_elem?,
}
use librtmp.Common.Result.{err, ErrorCode}
use librtmp.Buffer.{Buffer, peek, read, available}
use librtmp.Buffer.Wf.{IsValid}
use librtmp.Buffer.Codec.{Parses-read, Parses-map_err}
use librtmp.Handshake.Random.{Moment}
use librtmp.Handshake.Exact.{short_handshake_waits}
use librtmp.Handshake.{
  HandshakeState, Peer, server_wait_c0, server_wait_c1, server_wait_c2, read_version, server_init,
  server_read_c0,
}
use librtmp.Session.Connect.{
  pos, negsuc, Conn, CloseReason, unsupported_c0, hint, set_close_reason, code, lent, after_c0,
  after_c1, after_c2, first_or_0, do_handshake, do_handshake_recurse, handshake_step,
}

-- The reason that is recorded already, or else the new one.
abbrev pub first_reason : Option CloseReason → CloseReason → CloseReason
first_reason none reason = reason
first_reason (some old) reason = old

read_version_refuses :
    (next : HandshakeState) (p : Peer) (v : ℕ) (ys : List ℕ)
    → IsValid p.buf
    → peek p.buf ≡ v ∷ ys
    → (v == 3) ≡ false
    → (b : Buffer) × (read_version next p
        ≡ (record { hs = p.hs; buf = b }, err ErrorCode.handshake))
      × (peek b ≡ ys)
unfolding read_version
read_version_refuses next p v ys w e other =
    let (b, r, _, seen, _) =
      Parses-map_err ErrorCode.io (read 1) (v ∷ ys) ys (v ∷ []) (Parses-read 1 (v ∷ []) ys refl)
        p.buf w e in
    (b, rw (r, other) refl, seen)

close_reason_lem :
    (reason : CloseReason) (c : Conn) (o : Option CloseReason)
    → c.close_reason ≡ o
    → (d : Conn) × (set_close_reason reason c ≡ d)
      × (d.close_reason ≡ some (first_reason c.close_reason reason))
      × (d.state ≡ c.state)
      × (d.recv_buffer ≡ c.recv_buffer)
      × (d.send_buffer ≡ c.send_buffer)
      × (d.handshake ≡ c.handshake)
unfolding set_close_reason
close_reason_lem reason c none e =
    (record c { close_reason = some reason }, rw e refl, rw e refl, refl, refl, refl, refl)
close_reason_lem reason c (some old) e = (c, rw e refl, rw e refl, refl, refl, refl, refl)

-- A peer whose first byte is not 3 gets an end: `do_handshake` returns the code of `Handshake`, the
-- state of the connection stays, just that byte is taken and nothing is sent, and the reason names the
-- byte and what it hints at, unless another reason has been recorded before.
pub do_handshake_refuses :
    (c : Conn) (t : ℕ) (m1 m2 : Moment) (v : ℕ) (rest : List ℕ)
    → c.handshake.state ≡ server_wait_c0
    → IsValid c.recv_buffer
    → peek c.recv_buffer ≡ v ∷ rest
    → (v == 3) ≡ false
    → (d : Conn) × (do_handshake t m1 m2 c ≡ (d, negsuc 3))
      × (d.close_reason ≡ some (first_reason c.close_reason (unsupported_c0 v (hint v))))
      × (d.state ≡ c.state)
      × (peek d.recv_buffer ≡ rest)
      × (d.send_buffer ≡ c.send_buffer)
unfolding do_handshake server_read_c0 code
do_handshake_refuses c t m1 m2 v rest st w e other =
    let started : Conn = record c { handshake = server_init c.handshake } in
    let (b, run, left) = read_version_refuses server_wait_c1 (lent started) v rest w e other in
    let after : Conn = record started { recv_buffer = b } in
    let (d, set, reason, kept, buf, sent, _) =
      close_reason_lem (unsupported_c0 v (hint v)) after c.close_reason refl in
    (
      d,
      ap (λ s. handshake_step t m1 m2 s c) st
          ∙ ap (after_c0 t m1 m2 started (first_or_0 (get_elem? (peek c.recv_buffer) 0))) run
          ∙ ap
              (λ xs. (
                set_close_reason
                    (unsupported_c0 (first_or_0 (get_elem? xs 0))
                      (hint (first_or_0 (get_elem? xs 0))))
                    after,
                negsuc 3,
              ))
              e
          ∙ ap (λ x. (x, negsuc 3)) set,
      reason,
      kept,
      ap peek buf ∙ left,
      sent,
    )

-- With fewer than 1536 bytes there, a call that waits for a packet returns 0 and changes nothing.
pub do_handshake_waits :
    (c : Conn) (t : ℕ) (m1 m2 : Moment)
    → (c.handshake.state ≡ server_wait_c1) ⊎ (c.handshake.state ≡ server_wait_c2)
    → available c.recv_buffer < 1536
    → do_handshake t m1 m2 c ≡ (c, pos 0)
unfolding do_handshake do_handshake_recurse
do_handshake_waits c t m1 m2 wait short =
    let (c1, c2, _, _) = short_handshake_waits (lent c) t m1 m2 short in
    elim wait [
      | inl st ↦ ap (λ s. handshake_step t m1 m2 s c) st ∙ ap (after_c1 c) c1
      | inr st ↦ ap (λ s. handshake_step t m1 m2 s c) st ∙ ap (after_c2 c) c2
    ]
