-- ===== src/Sender/Examples.antt =====
-- Runs of libsponge/tcp_sender.cc.
use csed.Base.{◌≡◌, ◌⊎◌, refl, arith, true, false, [], ◌∷◌, replicate}
use csed.ByteStream
use csed.ByteStream.{ByteStream}
use csed.Wrapping.{wrap}
use csed.Segment.{TcpSegment, length_in_sequence_space, default_segment}
use csed.Sender.{
  TcpSender, window, fill_window, fill_loop, fill_round, goes_on, can_send, send_segment, stamp,
  push_in_flight, payload_size, data_segment, take_ack, is_empty, ack_received, tick,
}
use csed.Sender.Chain.{IsValid}
use csed.Sender.Window.{IsRoomy, IsDry, Sent, fill_window-Sent, fill_window_syn}
use csed.Sender.Ack.{Acked, take_ack-Acked, take_ack_all, ack_received_cases}
use csed.Sender.Timer.{tick-IsValid, tick_lem, first_segment, expire, expire_backoff}
use csed.Sender.Faults.{fill_window_overruns}

abbrev letters : ByteStream
letters = record {
  capacity = 4;
  buffer = b'a' ∷ b'b' ∷ b'c' ∷ b' ' ∷ [];
  end_of_buffer = 3;
  bytes_read = 0;
  bytes_written = 3;
  is_input_ended = true;
  error = false;
}

-- The SYN was acknowledged; three bytes wait, and the window is 2.
abbrev waiting : TcpSender
waiting = record {
  isn = 7;
  segments_out = [];
  initial_retransmission_timeout = 100;
  stream = letters;
  next_seqno = 1;
  segments_in_flight = [];
  syn = true;
  fin = false;
  is_timer_running = false;
  time_spent = 0;
  rwnd = 2;
  bytes_in_flight = 0;
  checkpoint = 1;
  n_consecutive_retransmissions = 0;
  rto = 100;
}

letters_segment : TcpSegment
letters_segment = record (default_segment) {
  header = record (default_segment.header) { seqno = 8 };
  payload = b'a' ∷ b'b' ∷ [];
}

abbrev flying : TcpSender
flying = record waiting {
  stream = record letters {
    buffer = b'c' ∷ b'b' ∷ b'c' ∷ b' ' ∷ [];
    end_of_buffer = 1;
    bytes_read = 2;
  };
  next_seqno = 3;
  segments_in_flight = record { abs_seqno = 1; seg = letters_segment } ∷ [];
  is_timer_running = true;
  bytes_in_flight = 2;
}

fill_window_runs : fill_window waiting ≡ record flying { segments_out = letters_segment ∷ [] }
unfolding fill_window fill_loop fill_round goes_on can_send send_segment stamp push_in_flight
    payload_size data_segment length_in_sequence_space default_segment letters_segment
    ByteStream.read ByteStream.eof wrap
fill_window_runs = refl

waiting-IsValid : IsValid waiting
waiting-IsValid = record {
  stream_valid = omega arith;
  counted = omega arith;
  chain = refl;
  acked = omega arith;
  unacked = omega arith;
  running = λ e. unfold is_empty in cc e;
  started = λ e. cc;
}

waiting-IsRoomy : IsRoomy waiting
waiting-IsRoomy = omega arith

flying-IsValid : IsValid flying
unfolding letters_segment length_in_sequence_space default_segment wrap
flying-IsValid = record {
  stream_valid = omega arith;
  counted = omega arith;
  chain = (refl, omega arith, refl, refl);
  acked = omega arith;
  unacked = omega arith;
  running = λ e. refl;
  started = λ e. cc;
}

fill_window-Sent_example : Sent 3 waiting (fill_window waiting)
unfolding window
fill_window-Sent_example =
    fill_window-Sent waiting waiting-IsValid waiting-IsRoomy refl refl (omega arith)

abbrev closed : TcpSender
closed = record waiting { next_seqno = 0; checkpoint = 0; syn = false }

fill_window_syn_run :
    IsValid (fill_window closed)
    × ((fill_window closed).syn ≡ true)
    × ((fill_window closed).next_seqno ≡ 1)
    × ((fill_window closed).bytes_in_flight ≡ 1)
    × ((fill_window closed).is_timer_running ≡ true)
unfolding is_empty
fill_window_syn_run =
    fill_window_syn closed
      (record {
        stream_valid = omega arith;
        counted = omega arith;
        chain = refl;
        acked = omega arith;
        unacked = omega arith;
        running = λ e. cc;
        started = λ e. refl;
      })
      refl refl

take_ack-Acked_example : Acked flying 2 (take_ack flying 2)
take_ack-Acked_example =
    take_ack-Acked flying 2 flying-IsValid (omega arith) (omega arith) (omega arith)

take_ack_all_run :
    ((take_ack flying 3).segments_in_flight ≡ []) × ((take_ack flying 3).bytes_in_flight ≡ 0)
take_ack_all_run = take_ack_all flying flying-IsValid (omega arith) (omega arith)

ack_received_cases_example :
    ack_received flying (wrap 3 7) 9 ≡ fill_window (take_ack (record flying { rwnd = 9 }) 3)
ack_received_cases_example = ack_received_cases flying 3 9 (omega arith) (omega arith) (omega arith)

tick-IsValid_run : IsValid (tick flying 250)
tick-IsValid_run = tick-IsValid flying 250 flying-IsValid

tick_lem_example :
    ((tick flying 100).segments_out ≡ letters_segment ∷ [])
    × ((tick flying 100).n_consecutive_retransmissions ≡ 1)
    × ((tick flying 100).rto ≡ 200)
    × ((tick flying 100).time_spent ≡ 0)
    × ((tick flying 100).segments_in_flight ≡ flying.segments_in_flight)
unfolding is_empty first_segment
tick_lem_example = tick_lem flying 100 (omega arith)

expire_backoff_run :
    ((expire 3 flying).rto ≡ 800)
    × ((expire 3 flying).n_consecutive_retransmissions ≡ 3)
    × ((expire 3 flying).segments_out ≡ replicate 3 letters_segment)
expire_backoff_run =
    expire_backoff 3 flying (record { abs_seqno = 1; seg = letters_segment }) [] refl refl
      (omega arith) (omega arith) (omega arith)

-- The window shrinks to 1 while two bytes are in flight.
fill_window_overruns_example :
    ((fill_window (record flying { rwnd = 1 })).fin ≡ true)
    ⊎ IsDry (fill_window (record flying { rwnd = 1 }))
unfolding window letters_segment length_in_sequence_space default_segment wrap
fill_window_overruns_example =
    fill_window_overruns (record flying { rwnd = 1 })
      (record {
        stream_valid = omega arith;
        counted = omega arith;
        chain = flying-IsValid.chain;
        acked = omega arith;
        unacked = omega arith;
        running = λ e. refl;
        started = λ e. cc;
      })
      (omega arith) refl refl (omega arith)
