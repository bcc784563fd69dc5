-- ===== src/Handshake.antt =====
-- src/handshake.rs: the handshake of server and client. The system's time and the counter of calls are
-- arguments: what `get_time` returns, and a `Moment` for each `fill_random`.
pub mod Random
pub mod Digest
pub mod Exact
pub mod Exchange
mod Tests
use librtmp.Common.{
  ℕ, zero, suc, ◌+◌, ◌-◌, ◌*◌, ◌/◌, ◌%◌, ◌^◌, Bool, true, false, not, ◌&&◌, ◌||◌, Option, some,
  none, List, [], ◌∷◌, ◌++◌, ltb, leb, ◌==◌, if◌then◌else◌, length, take, drop, replicate,
}
use librtmp.Common.Result.{Result, ok, err, ErrorCode, M, ◌>>=◌, ◌>>◌, map_err, fail_if, pure}
use librtmp.Bytes.{at, to_be32, ntoh32}
use librtmp.Buffer.{Buffer, available, read, write, splice, new}
use librtmp.Buffer
use librtmp.Buffer.Codec.{put}
use Random.{Moment, fill_random}
use Digest.{find_c1_digest, build_digest_s1s2}

abbrev pub rtmp_version : ℕ
rtmp_version = 0x03

abbrev pub handshake_size : ℕ
handshake_size = 1536

pub data HandshakeState : Type 0 where
  server_wait_c0 server_wait_c1 server_wait_c2 client_wait_s0 client_wait_s1 client_wait_s2 done :
      HandshakeState

pub record Handshake : Type 0 where
  pub state : HandshakeState
  pub version : ℕ
  pub peer_time : ℕ
  pub out : Buffer

-- `Handshake::default`
unfoldable pub default_handshake : Handshake
default_handshake = record { state = server_wait_c0; version = 0; peer_time = 0; out = new }

unfoldable pub is_complete : Handshake → Bool
is_complete hs = elim hs.state [
  | done ↦ true
  | server_wait_c0 ↦ false
  | server_wait_c1 ↦ false
  | server_wait_c2 ↦ false
  | client_wait_s0 ↦ false
  | client_wait_s1 ↦ false
  | client_wait_s2 ↦ false
]

unfoldable pub cleanup : Handshake → Handshake
cleanup hs = record hs { out = Buffer.reset hs.out }

-- `digest base` for `HandshakeMode::Digest(base)`.
pub data HandshakeMode : Type 0 where
  simple simple_fallback : HandshakeMode
  digest : ℕ → HandshakeMode

-- The handshake and the input buffer that the functions borrow.
pub record Peer : Type 0 where
  pub hs : Handshake
  pub buf : Buffer

abbrev into_buf {ℓ} : {A : Type ℓ} → Handshake → Buffer × Result A → Peer × Result A
into_buf hs (b, r) = (record { hs = hs; buf = b }, r)

abbrev pub on_buf {ℓ} : {A : Type ℓ} → M Buffer A → M Peer A
on_buf m p = into_buf p.hs (m p.buf)

abbrev into_out {ℓ} : {A : Type ℓ} → Peer → Buffer × Result A → Peer × Result A
into_out p (b, r) = (record p { hs = record p.hs { out = b } }, r)

abbrev pub on_out {ℓ} : {A : Type ℓ} → M Buffer A → M Peer A
on_out m p = into_out p (m p.hs.out)

abbrev pub update : (Handshake → Handshake) → M Peer (Unit {0})
update f p = (record p { hs = f p.hs }, ok tt)

-- `hs.out.reset()`
abbrev pub reset_out : M Peer (Unit {0})
reset_out = update (λ hs. record hs { out = Buffer.reset hs.out })

abbrev pub enter : HandshakeState → M Peer (Unit {0})
enter s = update (λ hs. record hs { state = s })

-- `if buf.available() < HANDSHAKE_SIZE { return Err(Io) }`, and the read of as many bytes.
unfoldable pub read_handshake : M Peer (List ℕ)
read_handshake p =
    (do
      fail_if (ltb (available p.buf) handshake_size) ErrorCode.io
      on_buf (map_err ErrorCode.io (read handshake_size)))
      p

unfoldable pub c1_requests_complex_handshake : List ℕ → Bool
c1_requests_complex_handshake c1 =
    leb handshake_size (length c1)
    && (not (at c1 4 == 0) || (not (at c1 5 == 0) || (not (at c1 6 == 0) || not (at c1 7 == 0))))

unfoldable pub server_init : Handshake → Handshake
server_init hs = record hs { state = server_wait_c0; version = 0; peer_time = 0 }

-- The reads of the version byte.
unfoldable pub read_version : HandshakeState → M Peer (Unit {0})
read_version next = do
  ver ← on_buf (map_err ErrorCode.io (read 1))
  fail_if (not (at ver 0 == rtmp_version)) ErrorCode.handshake
  update (λ hs. record hs { version = at ver 0; state = next })

unfoldable pub server_read_c0 : M Peer (Unit {0})
unfolding read_version
server_read_c0 = read_version server_wait_c1

-- The plain first packet of the server, and the second one, which echoes the first one of the client.
unfoldable pub simple_s1 : ℕ → Moment → List ℕ
simple_s1 server_time m =
    to_be32 server_time ++ (replicate 4 0 ++ fill_random m (handshake_size - 8))

unfoldable pub echo : List ℕ → ℕ → List ℕ
echo c1 time = splice c1 4 (to_be32 time)

-- The `match` of `server_read_c1_mode`.
abbrev pub answer_with :
    List ℕ → ℕ → Moment → Moment → Bool → Option (ℕ × List ℕ) → List ℕ × List ℕ × HandshakeMode
answer_with c1 server_time m1 m2 complex none =
    (simple_s1 server_time m1, echo c1 server_time, if complex then simple_fallback else simple)
answer_with c1 server_time m1 m2 complex (some (base, c1_digest)) =
    let (s1, s2) = build_digest_s1s2 base c1_digest server_time m1 m2 in (s1, s2, digest base)

unfoldable pub answer : List ℕ → ℕ → Moment → Moment → List ℕ × List ℕ × HandshakeMode
answer c1 server_time m1 m2 =
    let complex = c1_requests_complex_handshake c1 in
    answer_with c1 server_time m1 m2 complex (if complex then find_c1_digest c1 else none)

unfoldable pub queue_answer : List ℕ × List ℕ × HandshakeMode → M Peer HandshakeMode
queue_answer (s1, s2, mode) = do
  reset_out
  on_out (put s1)
  on_out (put s2)
  enter server_wait_c2
  pure mode

unfoldable pub server_read_c1_mode : ℕ → Moment → Moment → M Peer HandshakeMode
server_read_c1_mode server_time m1 m2 = do
  c1 ← read_handshake
  update (λ hs. record hs { peer_time = ntoh32 (take 4 c1) })
  queue_answer (answer c1 server_time m1 m2)

unfoldable pub server_read_c1 : ℕ → Moment → Moment → M Peer (Unit {0})
server_read_c1 server_time m1 m2 = do server_read_c1_mode server_time m1 m2; pure tt

unfoldable pub server_read_c2 : M Peer (Unit {0})
server_read_c2 = do read_handshake; enter done

unfoldable pub client_init : Handshake → Handshake
client_init hs = record hs { state = client_wait_s0; version = 0; peer_time = 0 }

unfoldable pub c0c1 : ℕ → Moment → List ℕ
c0c1 client_time m =
    rtmp_version ∷ (to_be32 client_time ++ (replicate 4 0 ++ fill_random m (handshake_size - 8)))

unfoldable pub client_generate_c0c1 : ℕ → Moment → M Peer (Unit {0})
client_generate_c0c1 client_time m = do
  update (λ hs. record hs { peer_time = client_time })
  reset_out
  on_out (put (c0c1 client_time m))
  enter client_wait_s0

unfoldable pub client_read_s0 : M Peer (Unit {0})
unfolding read_version
client_read_s0 = read_version client_wait_s1

unfoldable pub client_read_s1 : ℕ → M Peer (Unit {0})
client_read_s1 client_time = do
  s1 ← read_handshake
  update (λ hs. record hs { peer_time = ntoh32 (take 4 s1) })
  reset_out
  on_out (put (echo s1 client_time))
  enter client_wait_s2

unfoldable pub client_read_s2 : M Peer (Unit {0})
client_read_s2 = do read_handshake; enter done
