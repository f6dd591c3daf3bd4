-- ===== src/Connection/Open.antt =====
-- libsponge/tcp_connection.cc, `connect`: how a connection begins.
use csed.Base.{ℕ, ◌%◌, ◌<◌, ◌≡◌, refl, ap, arith, true, [], ◌∷◌, u16_mod, u64_mod}
use csed.ByteStream
use csed.Reassembler
use csed.Receiver
use csed.Sender
use csed.Sender.{value_or}
use csed.Wrapping.{WrappingInt32, wrap}
use csed.Segment.{TcpSegment, default_segment, default_header, length_in_sequence_space}
use csed.State.{state, of_state, syn_sent, listen, sender_summary, receiver_summary}
use csed.Connection.{
  TcpConfig, new, connect, send_segments, clean_shutdown, flush, dress, set_ackno,
}

-- The segment that opens a connection.
abbrev pub opening : WrappingInt32 → ℕ → TcpSegment
opening isn window = record (default_segment) {
  header = record (default_segment.header) { seqno = wrap 0 isn; syn = true; win = window };
}

-- A new connection with a receive capacity below 2^64 is in the official state LISTEN; `connect` takes it to
-- SYN_SENT and puts out one segment: the SYN with the initial sequence number, no acknowledgment,
-- and the low 16 bits of the receive capacity as the window.
pub connect_lem :
    (cfg : TcpConfig) (random : WrappingInt32)
    → cfg.recv_capacity < u64_mod
    → let c = new cfg random in
      (state c ≡ of_state listen)
      × (state (connect c) ≡ of_state syn_sent)
      × ((connect c).segments_out ≡ opening c.sender.isn (cfg.recv_capacity % u16_mod) ∷ [])
unfolding state sender_summary receiver_summary of_state new connect send_segments clean_shutdown
    flush dress set_ackno Sender.new Sender.fill_window Sender.send_segment Sender.stamp
    Receiver.new Receiver.ackno Receiver.window_size Reassembler.new ByteStream.new
    ByteStream.remaining_capacity ByteStream.eof ByteStream.input_ended default_segment
    default_header length_in_sequence_space
connect_lem cfg random h =
    (refl, refl, ap (λ w. opening (value_or cfg.fixed_isn random) w ∷ []) (omega (arith, h)))
