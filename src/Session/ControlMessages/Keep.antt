-- ===== src/Session/ControlMessages/Keep.antt =====
-- src/session/conn.rs: the control messages of a peer keep the connection's limits.
use librtmp.Common.{ℕ, ◌≤◌, ◌≡◌, ◌⊎◌, List}
use librtmp.Common.Result.{Result, ok, err, ErrorCode}
use librtmp.Chunk.State.Inv.{RegInv}
use librtmp.Message.Control.{min_window_ack_size}
use librtmp.Session.ControlMessages.{
  ControlConn, rtmp_msg_set_chunk_size, or_reason, raw, invalid_set_chunk_size,
}

-- The registry is well formed, and the window is off or not so small that a peer could ask for an
-- acknowledgement of every few bytes.
pub record ControlInv (c : ControlConn) : Type 0 where
  pub registry : RegInv c.chunk_reg
  pub window : (c.window_ack_size ≡ 0) ⊎ (min_window_ack_size ≤ c.window_ack_size)

-- A message is taken, or it is a chunk size that is refused.
abbrev pub Handled : ℕ → List ℕ → ControlConn → ControlConn × Result (Unit {0}) → Type 0
Handled ty payload c (next, ok _) =
    ControlInv next
    × (next.chunk_size ≡ c.chunk_size)
    × (next.active_chunk_size ≡ c.active_chunk_size)
    × (next.close_reason ≡ c.close_reason)
Handled ty payload c (next, err e) =
    (e ≡ ErrorCode.protocol)
    × (ty ≡ rtmp_msg_set_chunk_size)
    × (next ≡ record c {
      close_reason = or_reason c.close_reason (invalid_set_chunk_size (raw payload));
    })
