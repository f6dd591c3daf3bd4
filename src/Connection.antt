-- ===== src/Connection.antt =====
-- libsponge/tcp_connection.hh and .cc: a receiver, a sender, and what goes out of the connection.
-- `TcpConfig` is the class of libsponge/tcp_helpers/tcp_config.hh.
pub mod Flush
pub mod Reset
pub mod Retries
pub mod Linger
pub mod Faults
pub mod Open
mod Examples
use csed.Base.{
  ℕ, ◌+◌, ◌*◌, ◌%◌, Bool, true, false, not, ◌&&◌, ◌||◌, Option, none, some, List, [], ◌∷◌, ◌++◌,
  ltb, leb, ◌==◌, if◌then◌else◌, length, u16_mod, u64_mod,
}
use csed.Wrapping.{WrappingInt32}
use csed.ByteStream
use csed.Segment.{TcpHeader, TcpSegment}
use csed.Receiver
use csed.Receiver.{TcpReceiver}
use csed.Sender
use csed.Sender.{TcpSender, is_empty}

pub record TcpConfig : Type 0 where
  pub rt_timeout : ℕ
  pub recv_capacity : ℕ
  pub send_capacity : ℕ
  pub fixed_isn : Option WrappingInt32

abbrev pub max_retx_attempts : ℕ
max_retx_attempts = 8

pub record TcpConnection : Type 0 where
  pub cfg : TcpConfig
  pub receiver : TcpReceiver
  pub sender : TcpSender
  pub segments_out : List TcpSegment
  pub linger_after_streams_finish : Bool
  pub time_since_last_segment_received : ℕ
  pub is_active : Bool
  pub sent_syn : Bool

unfoldable pub new : TcpConfig → WrappingInt32 → TcpConnection
new cfg random = record {
  cfg = cfg;
  receiver = Receiver.new cfg.recv_capacity;
  sender = Sender.new cfg.send_capacity cfg.rt_timeout cfg.fixed_isn random;
  segments_out = [];
  linger_after_streams_finish = true;
  time_since_last_segment_received = 0;
  is_active = true;
  sent_syn = false;
}

unfoldable pub inbound_stream : TcpConnection → ByteStream.ByteStream
inbound_stream c = c.receiver.reassembler.output

unfoldable pub remaining_outbound_capacity : TcpConnection → ℕ
remaining_outbound_capacity c = ByteStream.remaining_capacity c.sender.stream

unfoldable pub bytes_in_flight : TcpConnection → ℕ
bytes_in_flight c = c.sender.bytes_in_flight

unfoldable pub unassembled_bytes : TcpConnection → ℕ
unassembled_bytes c = Receiver.unassembled_bytes c.receiver

-- `seg_out.header().ack = true; seg_out.header().ackno = ...`, if there is an `ackno()`.
unfoldable pub set_ackno : Option WrappingInt32 → TcpHeader → TcpHeader
set_ackno none h = h
set_ackno (some n) h = record h { ack = true; ackno = n }

-- The header that a segment leaves with; `win` is a `uint16_t`.
unfoldable pub dress : TcpReceiver → Bool → TcpSegment → TcpSegment
unfolding set_ackno
dress r rst seg =
    let h = set_ackno (Receiver.ackno r) seg.header in
    record seg {
      header = record h {
        win = Receiver.window_size r % u16_mod;
        rst = if rst then true else h.rst;
      };
    }

-- The loop of `_send_segments`, on the sender's queue and what is in the connection's.
unfoldable pub flush : TcpReceiver → Bool → List TcpSegment → List TcpSegment → List TcpSegment
unfolding dress
flush r set_rst [] out = out
flush r set_rst (seg ∷ queue) out =
    flush r set_rst queue (out ++ (dress r (set_rst && is_empty queue) seg ∷ []))

-- The test for the three prerequisites of a clean shutdown.
unfoldable pub streams_finished : TcpConnection → Bool
unfolding inbound_stream unassembled_bytes bytes_in_flight
streams_finished c =
    ByteStream.input_ended (inbound_stream c)
    && (unassembled_bytes c == 0)
    && ByteStream.input_ended c.sender.stream
    && (bytes_in_flight c == 0)

unfoldable pub clean_shutdown : TcpConnection → TcpConnection
unfolding inbound_stream streams_finished
clean_shutdown c =
    let linger =
      if ByteStream.input_ended (inbound_stream c) && not (ByteStream.eof c.sender.stream)
      then false
      else c.linger_after_streams_finish in
    record c {
      linger_after_streams_finish = linger;
      is_active =
          if streams_finished c
            && (not linger || leb (10 * c.cfg.rt_timeout) c.time_since_last_segment_received)
          then false
          else c.is_active;
    }

unfoldable pub send_segments : Bool → TcpConnection → TcpConnection
unfolding flush clean_shutdown
send_segments set_rst c =
    let s = Sender.fill_window c.sender in
    clean_shutdown (record c {
      sent_syn = true;
      sender = record s { segments_out = [] };
      segments_out = flush c.receiver set_rst s.segments_out c.segments_out;
    })

unfoldable pub kill_connection : TcpConnection → TcpConnection
kill_connection c = record c {
  sender = record (c.sender) { stream = ByteStream.set_error c.sender.stream };
  receiver = record (c.receiver) {
    reassembler = record (c.receiver.reassembler) {
      output = ByteStream.set_error c.receiver.reassembler.output;
    };
  };
  is_active = false;
}

unfoldable pub unclean_shutdown : TcpConnection → TcpConnection
unfolding kill_connection send_segments
unclean_shutdown c =
    let k = kill_connection c in
    send_segments true (
      if is_empty k.sender.segments_out
      then record k { sender = Sender.send_empty_segment k.sender }
      else k)

-- `_sender.send_empty_segment()` for a segment that takes up sequence numbers.
unfoldable pub answer : TcpSegment → TcpConnection → TcpConnection
answer seg c =
    if (seg.header.syn && c.sent_syn) || seg.header.fin || ltb 0 (length seg.payload)
    then record c { sender = Sender.send_empty_segment c.sender }
    else c

-- The receiver's part of a segment, then the sender's.
unfoldable pub take_segment : TcpSegment → TcpConnection → TcpConnection
take_segment seg c = record c {
  receiver = Receiver.segment_received c.receiver seg;
  sender =
      if seg.header.ack
      then Sender.ack_received c.sender seg.header.ackno seg.header.win
      else c.sender;
}

unfoldable pub segment_received : TcpConnection → TcpSegment → TcpConnection
unfolding kill_connection take_segment answer send_segments
segment_received c seg =
    let c' = record c { time_since_last_segment_received = 0 } in
    if seg.header.rst
    then kill_connection c'
    else (if not c'.sent_syn && seg.header.ack
        then c'
        else send_segments false (answer seg (take_segment seg c')))

unfoldable pub write : TcpConnection → List ℕ → TcpConnection × ℕ
unfolding send_segments
write c data' =
    let (stream', n) = ByteStream.write c.sender.stream data' in
    (send_segments false (record c { sender = record (c.sender) { stream = stream' } }), n)

-- `_unclean_shutdown` after too many retransmissions.
unfoldable pub give_up : TcpConnection → TcpConnection
unfolding unclean_shutdown
give_up c =
    if ltb max_retx_attempts c.sender.n_consecutive_retransmissions then unclean_shutdown c else c

unfoldable pub tick : TcpConnection → ℕ → TcpConnection
unfolding give_up send_segments
tick c ms =
    let c' = give_up (record c {
      sender = Sender.tick c.sender ms;
      time_since_last_segment_received = (c.time_since_last_segment_received + ms) % u64_mod;
    }) in
    if c'.sent_syn then send_segments false c' else c'

unfoldable pub end_input_stream : TcpConnection → TcpConnection
unfolding send_segments
end_input_stream c =
    send_segments false
      (record c { sender = record (c.sender) { stream = ByteStream.end_input c.sender.stream } })

unfoldable pub connect : TcpConnection → TcpConnection
unfolding send_segments
connect c = send_segments false c

-- The destructor.
unfoldable pub destroy : TcpConnection → TcpConnection
unfolding unclean_shutdown
destroy c = if c.is_active then unclean_shutdown c else c
