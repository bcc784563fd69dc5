-- ===== src/Session/Connect/Tests.antt =====
-- src/session/conn.rs: the handshake of a concrete connection.
use librtmp.Common.{ℕ, List, ◌≡◌, refl, true, false, none, some, [], ◌∷◌, ◌++◌, arith, replicate}
use librtmp.Buffer.{with_capacity, from_slice, peek}
use librtmp.Buffer.New.{
  with_capacity-IsValid, peek-with_capacity, from_slice-IsValid, peek-from_slice,
}
use librtmp.Handshake.{server_wait_c0, c1_requests_complex_handshake}
use librtmp.Handshake.Random.{Moment}
use librtmp.Session.StateMachine.{tcp_accepted}
use librtmp.Session.Connect.{Conn, do_handshake, negsuc, unsupported_c0, hint}
use librtmp.Session.Connect.Refuse.{do_handshake_refuses}
use librtmp.Session.Connect.Complete.{Completes, do_handshake-Completes}

abbrev noon : Moment
noon = record { secs = 1700000000; nanos = 5; counter = 0 }

-- A client that has sent the version byte and a packet of zeros.
abbrev accepted : Conn
accepted = record {
  state = tcp_accepted;
  handshake = record {
    state = server_wait_c0;
    version = 0;
    peer_time = 0;
    out = with_capacity 512;
  };
  recv_buffer = from_slice (3 ∷ (replicate 1536 0 ++ []));
  send_buffer = with_capacity 512;
  client_fd = some 4;
  close_reason = none;
}

abbrev second_packet : List ℕ
second_packet = replicate 1536 7 ++ []

owned_512 : (with_capacity 512).owned ≡ true
unfolding with_capacity
owned_512 = refl

zeros_plain : c1_requests_complex_handshake (replicate 1536 0) ≡ false
unfolding c1_requests_complex_handshake
zeros_plain = refl

do_handshake-Completes_example :
    (d : Conn) × (f : Conn) × Completes accepted 8 noon noon
      (replicate 1536 0)
      []
      9
      noon
      noon
      (from_slice second_packet)
      []
      d
      f
do_handshake-Completes_example =
    do_handshake-Completes accepted 4 8 noon noon (replicate 1536 0) [] 9 noon noon
      (from_slice second_packet) (replicate 1536 7) [] refl refl (with_capacity-IsValid 512)
      owned_512 (with_capacity-IsValid 512) owned_512 (rw (peek-with_capacity 512) (omega arith))
      (from_slice-IsValid _) refl zeros_plain (peek-from_slice _) (from_slice-IsValid second_packet)
      refl (peek-from_slice second_packet)

-- A browser has connected, and a reason has not been recorded.
abbrev browser : Conn
browser = record accepted { recv_buffer = from_slice (0x47 ∷ 0x45 ∷ 0x54 ∷ []) }

do_handshake_refuses_example :
    (d : Conn) × (do_handshake 8 noon noon browser ≡ (d, negsuc 3))
    × (d.close_reason ≡ some (unsupported_c0 0x47 (hint 0x47)))
    × (d.state ≡ tcp_accepted)
    × (peek d.recv_buffer ≡ 0x45 ∷ 0x54 ∷ [])
    × (d.send_buffer ≡ with_capacity 512)
do_handshake_refuses_example =
    do_handshake_refuses browser 8 noon noon 0x47 (0x45 ∷ 0x54 ∷ []) refl (from_slice-IsValid _)
      (peek-from_slice _) refl
