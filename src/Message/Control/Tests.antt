-- ===== src/Message/Control/Tests.antt =====
-- src/message/control.rs: the control messages on concrete values.
use librtmp.Common.{◌+◌, ◌≤◌, ◌≡◌, refl, min, inr, true, none, some, [], ◌∷◌, arith}
use librtmp.Common.Result.{ok}
use librtmp.Bytes.{ntoh32}
use librtmp.Buffer.{Buffer, with_capacity, available, buffer_max_size}
use librtmp.Buffer.New.{with_capacity-IsValid}
use librtmp.Message.Control.{
  write_set_chunk_size, write_abort_message, write_acknowledgement, write_window_ack_size,
  write_set_peer_bandwidth, write_user_control_stream_begin, write_user_control_stream_eof,
  write_user_control_set_buffer_length, write_user_control_ping_request,
  write_user_control_ping_response, read_set_chunk_size, read_abort_message,
  read_acknowledgement_size, read_window_ack_size, read_set_peer_bandwidth, read_user_control,
  max_peer_chunk_size, uctrl_stream_begin, uctrl_stream_eof, uctrl_set_buffer_length,
  uctrl_ping_request, uctrl_ping_response,
}
use librtmp.Message.Control.RoundTrip.{
  Sent, set_chunk_size_round_trip, word_messages_round_trip, set_peer_bandwidth_round_trip,
  user_control_round_trip, read_set_chunk_size_range,
}

abbrev out : Buffer
out = with_capacity 0

out_room : available out + 10 ≤ buffer_max_size
unfolding available with_capacity
out_room = omega arith

owned_out : out.owned ≡ true
unfolding with_capacity
owned_out = refl

announced : read_set_chunk_size (0 ∷ 0 ∷ 16 ∷ 0 ∷ []) ≡ ok 4096
unfolding read_set_chunk_size ntoh32
announced = refl

set_chunk_size_round_trip_example :
    Sent out (write_set_chunk_size 4096 out) read_set_chunk_size (min 4096 max_peer_chunk_size)
set_chunk_size_round_trip_example =
    set_chunk_size_round_trip out (with_capacity-IsValid 0) owned_out out_room 4096 (omega arith)
      (omega arith)

word_messages_round_trip_example :
    Sent out (write_abort_message 5000 out) read_abort_message 5000
    × Sent out (write_acknowledgement 5000 out) read_acknowledgement_size 5000
    × Sent out (write_window_ack_size 5000 out) read_window_ack_size 5000
word_messages_round_trip_example =
    word_messages_round_trip out (with_capacity-IsValid 0) owned_out out_room 5000 (omega arith)
      (inr (omega arith))

set_peer_bandwidth_round_trip_example :
    Sent out (write_set_peer_bandwidth 2500000 2 out) read_set_peer_bandwidth (2500000, 2)
set_peer_bandwidth_round_trip_example =
    set_peer_bandwidth_round_trip out (with_capacity-IsValid 0) owned_out out_room 2500000 2
      (omega arith)

user_control_round_trip_example :
    Sent out
      (write_user_control_stream_begin 1 out)
      (λ p. read_user_control p true)
      (uctrl_stream_begin, 1, none)
    × Sent out
        (write_user_control_stream_eof 1 out)
        (λ p. read_user_control p true)
        (uctrl_stream_eof, 1, none)
    × Sent out
        (write_user_control_ping_request 1 out)
        (λ p. read_user_control p true)
        (uctrl_ping_request, 1, none)
    × Sent out
        (write_user_control_ping_response 1 out)
        (λ p. read_user_control p true)
        (uctrl_ping_response, 1, none)
    × Sent out
        (write_user_control_set_buffer_length 1 3000 out)
        (λ p. read_user_control p true)
        (uctrl_set_buffer_length, 1, some 3000)
user_control_round_trip_example =
    user_control_round_trip out (with_capacity-IsValid 0) owned_out out_room 1 3000 (omega arith)
      (omega arith)

read_set_chunk_size_range_example : (128 ≤ 4096) × (4096 ≤ max_peer_chunk_size)
read_set_chunk_size_range_example = read_set_chunk_size_range (0 ∷ 0 ∷ 16 ∷ 0 ∷ []) 4096 announced
