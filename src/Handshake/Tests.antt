-- ===== src/Handshake/Tests.antt =====
-- src/handshake.rs: the handshake on concrete peers.
use librtmp.Common.{ℕ, ◌≡◌, refl, true, some, List, arith}
use librtmp.Buffer.New.{with_capacity-IsValid}
use librtmp.Buffer.{with_capacity}
use librtmp.Handshake.{Handshake, Peer, server_wait_c0}
use librtmp.Handshake.Random.{Moment}
use librtmp.Handshake.Exchange.{Exchanged, exchange-Exchanged}
use librtmp.Handshake.Digest.{digest_at, digest_s1, fms_key_text}
use librtmp.Handshake.Digest.Verify.{digest_s1-verifies}

abbrev noon : Moment
noon = record { secs = 1700000000; nanos = 5; counter = 0 }

abbrev later : Moment
later = record { secs = 1700000001; nanos = 6; counter = 1 }

abbrev fresh : Handshake
fresh = record { state = server_wait_c0; version = 0; peer_time = 0; out = with_capacity 512 }

fresh_owned : fresh.out.owned ≡ true
unfolding with_capacity
fresh_owned = refl

exchange-Exchanged_example :
    (cg ce se s2 : Peer) × Exchanged 7 8 9 noon later noon fresh fresh cg ce se s2
exchange-Exchanged_example =
    exchange-Exchanged 7 8 9 noon later noon fresh fresh (with_capacity-IsValid 512) fresh_owned
      (with_capacity-IsValid 512) fresh_owned

digest_s1-verifies_example :
    (found : List ℕ) × (digest_at fms_key_text (digest_s1 772 8 noon) 772 ≡ some (772, found))
digest_s1-verifies_example = digest_s1-verifies 772 8 noon (omega arith)
