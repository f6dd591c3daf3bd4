-- ===== src/Connection/Examples.antt =====
-- Runs of libsponge/tcp_connection.cc.
use csed.Base.{◌≡◌, ◌+◌, refl, arith, true, false, some, [], ◌∷◌, ltb, map, u16_mod}
use csed.ByteStream
use csed.Reassembler
use csed.Receiver
use csed.Sender
use csed.Sender.{TcpSender, OrderedSegment}
use csed.Segment.{TcpSegment}
use csed.State.{state, of_state, listen, syn_sent, reset}
use csed.Connection.{TcpConfig, TcpConnection, new, connect, send_segments, tick}
use csed.Connection.Retries.{Resets, tick_gives_up}
use csed.Connection.Linger.{Lingers, ticks, linger_ticks}
use csed.Connection.Faults.{window_wraps}
use csed.Connection.Open.{opening, connect_lem}

abbrev small : TcpConfig
small = record { rt_timeout = 100; recv_capacity = 8; send_capacity = 4; fixed_isn = some 5 }

connect_lem_example :
    (state (new small 0) ≡ of_state listen)
    × (state (connect (new small 0)) ≡ of_state syn_sent)
    × ((connect (new small 0)).segments_out ≡ opening (new small 0).sender.isn 8 ∷ [])
connect_lem_example = connect_lem small 0 (omega arith)

abbrev rst_segment : TcpSegment
rst_segment = record {
  header = record {
    sport = 0;
    dport = 0;
    seqno = 0;
    ackno = 0;
    doff = 5;
    urg = false;
    ack = false;
    psh = false;
    rst = true;
    syn = false;
    fin = false;
    win = 0;
    cksum = 0;
    uptr = 0;
  };
  payload = [];
}

-- All was sent and acknowledged, and both streams have ended.
abbrev finished : TcpSender
finished = record {
  isn = 5;
  segments_out = [];
  initial_retransmission_timeout = 100;
  stream = record (ByteStream.new 4) { is_input_ended = true };
  next_seqno = 2;
  segments_in_flight = [];
  syn = true;
  fin = true;
  is_timer_running = false;
  time_spent = 0;
  rwnd = 8;
  bytes_in_flight = 0;
  checkpoint = 2;
  n_consecutive_retransmissions = 0;
  rto = 100;
}

abbrev lingering : TcpConnection
lingering = record {
  cfg = small;
  receiver = record {
    reassembler = record (Reassembler.new 8) {
      output = record (ByteStream.new 8) { is_input_ended = true };
    };
    capacity = 8;
    isn = 9;
    received_syn = true;
    received_fin = true;
  };
  sender = finished;
  segments_out = [];
  linger_after_streams_finish = true;
  time_since_last_segment_received = 0;
  is_active = true;
  sent_syn = true;
}

lingering-Lingers : Lingers lingering
unfolding Reassembler.new ByteStream.new
lingering-Lingers = record {
  inbound_ended = refl;
  assembled = refl;
  outbound_ended = refl;
  drained = refl;
  syn = refl;
  fin = refl;
  none_in_flight = refl;
  no_segments = refl;
  none_queued = refl;
  few_retries = omega arith;
  lingering = refl;
  started = refl;
}

linger_ticks_example :
    ((ticks lingering (900 ∷ 99 ∷ 1 ∷ [])).is_active ≡ ltb (0 + (900 + (99 + (1 + 0)))) 1000)
    × ((ticks lingering (900 ∷ 99 ∷ 1 ∷ [])).segments_out ≡ [])
linger_ticks_example =
    linger_ticks lingering (900 ∷ 99 ∷ 1 ∷ []) lingering-Lingers (omega arith) refl

-- Eight retransmissions were made, and the ninth is due.
abbrev retried : TcpConnection
retried = record lingering {
  sender = record finished {
    next_seqno = 1;
    fin = false;
    segments_in_flight = record { abs_seqno = 0; seg = rst_segment } ∷ [];
    is_timer_running = true;
    bytes_in_flight = 1;
    checkpoint = 0;
    n_consecutive_retransmissions = 8;
  };
}

tick_gives_up_example :
    Resets [] (tick retried 100).segments_out × (state (tick retried 100) ≡ of_state reset)
unfolding Sender.tick Sender.retransmit Sender.stop_timer Sender.is_empty
tick_gives_up_example = tick_gives_up retried 100 (omega arith)

-- A receiver with room for 2^16 bytes, and a SYN to send.
abbrev roomy : TcpConnection
roomy = new (record small { recv_capacity = u16_mod }) 0

window_wraps_example :
    map (λ (seg : TcpSegment). seg.header.win) (send_segments false roomy).segments_out ≡ 0 ∷ []
unfolding new Sender.fill_window Sender.new Receiver.new Receiver.window_size
    ByteStream.remaining_capacity ByteStream.new Reassembler.new Sender.send_segment
window_wraps_example = window_wraps false roomy 1 (omega arith)
