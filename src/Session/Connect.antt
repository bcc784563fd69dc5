-- ===== src/Session/Connect.antt =====
-- src/session/conn.rs: the server's side of the handshake on a connection. The return codes are the
-- integers of the source; the fields of `Conn` that the handshake does not touch are left out.
pub mod Complete
pub mod Refuse
mod Tests
use librtmp.Common.{
  ℕ, zero, suc, Option, some, none, List, [], ◌∷◌, get_elem?, ◌==◌, ◌||◌, if◌then◌else◌,
}
use librtmp.Common.Result.{Result, ok, err, ErrorCode, M, ◌>>=◌, ◌>>◌, pure}
use librtmp.Buffer.{Buffer, peek}
use librtmp.Buffer
use librtmp.Buffer.Codec.{put}
use librtmp.Handshake.Random.{Moment}
use librtmp.Handshake.{
  Handshake, HandshakeMode, HandshakeState, server_wait_c0, server_wait_c1, server_wait_c2,
  client_wait_s0, client_wait_s1, client_wait_s2, done, Peer, server_init, server_read_c0,
  server_read_c1_mode, server_read_c2,
}
use librtmp.Session.StateMachine.{ConnState}

-- An `i32`: `negsuc n` is `-(n + 1)`.
pub data ℤ : Type 0 where
  pos negsuc : ℕ → ℤ

-- `e as i32`
unfoldable pub code : ErrorCode → ℤ
code ErrorCode.ok_code = pos 0
code ErrorCode.io = negsuc 0
code ErrorCode.timeout = negsuc 1
code ErrorCode.protocol = negsuc 2
code ErrorCode.handshake = negsuc 3
code ErrorCode.chunk = negsuc 4
code ErrorCode.amf = negsuc 5
code ErrorCode.unsupported = negsuc 6
code ErrorCode.auth = negsuc 7
code ErrorCode.internal = negsuc 8

-- The hint in the text of the reason.
pub data Hint : Type 0 where
  encrypted tls_hello http_request no_hint : Hint

-- `match c0`
unfoldable pub hint : ℕ → Hint
hint c0 =
    if c0 == 0x06 || c0 == 0x08
    then encrypted
    else if c0 == 0x16
    then tls_hello
    else if c0 == 0x47 || (c0 == 0x50 || c0 == 0x48)
    then http_request
    else no_hint

pub data CloseReason : Type 0 where
  unsupported_c0 : ℕ → Hint → CloseReason
  other_reason : CloseReason

-- `client_fd` is `none` for `INVALID_SOCKET`.
pub record Conn : Type 0 where
  pub state : ConnState
  pub handshake : Handshake
  pub recv_buffer : Buffer
  pub send_buffer : Buffer
  pub client_fd : Option ℕ
  pub close_reason : Option CloseReason

-- The first reason wins.
unfoldable pub set_close_reason : CloseReason → Conn → Conn
set_close_reason reason c = elim c.close_reason [
  | none ↦ record c { close_reason = some reason }
  | some _ ↦ c
]

-- The handshake and the receive buffer, lent to a step of the handshake and taken back.
abbrev pub lent : Conn → Peer
lent c = record { hs = c.handshake; buf = c.recv_buffer }

abbrev pub taken_back : Conn → Peer → Conn
taken_back c p = record c { handshake = p.hs; recv_buffer = p.buf }

-- `Err(ErrorCode::Io) => 0, Err(e) => e as i32`
abbrev pub failed : ErrorCode → ℤ
failed ErrorCode.io = pos 0
failed e = code e

-- The version byte and the answer, if there is a socket.
abbrev pub send_answer : Option ℕ → List ℕ → M Buffer (Unit {0})
send_answer none out = pure tt
send_answer (some fd) out = do put (3 ∷ []); put out

abbrev pub answered : Conn → Buffer × Result (Unit {0}) → Conn × ℤ
answered c (b, ok _) = (
  record c {
    handshake = record c.handshake { out = Buffer.reset c.handshake.out };
    send_buffer = b;
  },
  pos 1,
)
answered c (b, err _) = (record c { send_buffer = b }, code ErrorCode.internal)

abbrev pub after_c1 : Conn → Peer × Result HandshakeMode → Conn × ℤ
after_c1 c (p, ok mode) =
    answered (taken_back c p) (send_answer c.client_fd (peek p.hs.out) c.send_buffer)
after_c1 c (p, err e) = (taken_back c p, failed e)

unfoldable pub do_handshake_recurse : ℕ → Moment → Moment → Conn → Conn × ℤ
do_handshake_recurse time m1 m2 c = after_c1 c (server_read_c1_mode time m1 m2 (lent c))

-- `c0.unwrap_or(0)`
abbrev pub first_or_0 : Option ℕ → ℕ
first_or_0 none = 0
first_or_0 (some c0) = c0

abbrev pub refused : ℕ → ErrorCode → Conn → Conn × ℤ
refused c0 ErrorCode.io c = (c, pos 0)
refused c0 e c = (set_close_reason (unsupported_c0 c0 (hint c0)) c, code e)

abbrev pub after_c0 : ℕ → Moment → Moment → Conn → ℕ → Peer × Result (Unit {0}) → Conn × ℤ
after_c0 time m1 m2 c c0 (p, ok _) =
    do_handshake_recurse time m1 m2 (record (taken_back c p) { state = ConnState.handshake })
after_c0 time m1 m2 c c0 (p, err e) = refused c0 e (taken_back c p)

abbrev pub after_c2 : Conn → Peer × Result (Unit {0}) → Conn × ℤ
after_c2 c (p, ok _) = (record (taken_back c p) { state = ConnState.connected }, pos 1)
after_c2 c (p, err e) = (taken_back c p, failed e)

-- The `match self.handshake.state`.
abbrev pub handshake_step : ℕ → Moment → Moment → HandshakeState → Conn → Conn × ℤ
handshake_step time m1 m2 server_wait_c0 c =
    let started : Conn = record c { handshake = server_init c.handshake } in
    after_c0 time m1 m2 started (first_or_0 (get_elem? (peek c.recv_buffer) 0))
      (server_read_c0 (lent started))
handshake_step time m1 m2 server_wait_c1 c = do_handshake_recurse time m1 m2 c
handshake_step time m1 m2 server_wait_c2 c = after_c2 c (server_read_c2 (lent c))
handshake_step time m1 m2 done c = (record c { state = ConnState.connected }, pos 1)
handshake_step time m1 m2 client_wait_s0 c = (c, negsuc 0)
handshake_step time m1 m2 client_wait_s1 c = (c, negsuc 0)
handshake_step time m1 m2 client_wait_s2 c = (c, negsuc 0)

unfoldable pub do_handshake : ℕ → Moment → Moment → Conn → Conn × ℤ
do_handshake time m1 m2 c = handshake_step time m1 m2 c.handshake.state c
