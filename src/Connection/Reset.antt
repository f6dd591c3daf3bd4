-- ===== src/Connection/Reset.antt =====
-- libsponge/tcp_connection.cc after a reset: what no later call undoes.
use csed.Base.{ℕ, ◌≡◌, refl, ◌∙◌, Bool, true, false, List, [], ◌∷◌, if◌then◌else◌}
use csed.ByteStream
use csed.Segment.{TcpSegment}
use csed.Receiver
use csed.Sender
use csed.Sender.{TcpSender, is_empty}
use csed.Sender.Grows.{Grows, fill_window-Grows, send_empty_segment-Grows}
use csed.Connection.{
  TcpConnection, kill_connection, send_segments, clean_shutdown, unclean_shutdown, segment_received,
  write, tick, end_input_stream, connect,
}
use csed.State.{reset, state, of_state, sender_summary, receiver_summary}

pub record IsReset (c : TcpConnection) : Type 0 where
  pub outbound : c.sender.stream.error ≡ true
  pub inbound : c.receiver.reassembler.output.error ≡ true
  pub inactive : c.is_active ≡ false

if-IsReset : (b : Bool) (x y : TcpConnection) → IsReset x → IsReset y → IsReset (if b then x else y)
if-IsReset true x y g h = g
if-IsReset false x y g h = h

if_false : (b c : Bool) → c ≡ false → (if b then false else c) ≡ false
if_false true c h = refl
if_false false c h = h

-- A step of the sender alone.
with_sender :
    (c : TcpConnection) (s : TcpSender)
    → Grows c.sender s
    → IsReset c
    → IsReset (record c { sender = s })
with_sender c s g r = record {
  outbound = g.same_error ∙ r.outbound;
  inbound = r.inbound;
  inactive = r.inactive;
}

pub send_segments-IsReset :
    (set_rst : Bool) (c : TcpConnection) → IsReset c → IsReset (send_segments set_rst c)
unfolding send_segments clean_shutdown
send_segments-IsReset set_rst c r = record {
  outbound = (fill_window-Grows c.sender).same_error ∙ r.outbound;
  inbound = r.inbound;
  inactive = if_false _ c.is_active r.inactive;
}

pub kill_connection-IsReset : (c : TcpConnection) → IsReset (kill_connection c)
unfolding kill_connection ByteStream.set_error
kill_connection-IsReset c = record { outbound = refl; inbound = refl; inactive = refl }

pub unclean_shutdown-IsReset : (c : TcpConnection) → IsReset (unclean_shutdown c)
unfolding unclean_shutdown
unclean_shutdown-IsReset c =
    let k = kill_connection c in
    let r = kill_connection-IsReset c in
    send_segments-IsReset true _ (
      if-IsReset (is_empty k.sender.segments_out) _ k
        (with_sender k _ (send_empty_segment-Grows k.sender) r) r)

-- The calls of a connection, by its owner and by the application that reads from it.
pub data Event : Type 0 where
  received : TcpSegment → Event
  written : List ℕ → Event
  ticked : ℕ → Event
  ended : Event
  connected : Event
  read_out : ℕ → Event

unfoldable pub step : TcpConnection → Event → TcpConnection
step c (received seg) = segment_received c seg
step c (written d) = (write c d).0
step c (ticked ms) = tick c ms
step c ended = end_input_stream c
step c connected = connect c
step c (read_out n) = record c {
  receiver = record (c.receiver) {
    reassembler = record (c.receiver.reassembler) {
      output = (ByteStream.read c.receiver.reassembler.output n).0;
    };
  };
}

unfoldable pub run : TcpConnection → List Event → TcpConnection
run c [] = c
run c (e ∷ es) = run (step c e) es

pub state-IsReset : (c : TcpConnection) → IsReset c → state c ≡ of_state reset
unfolding state of_state sender_summary receiver_summary
state-IsReset c r = rw (r.outbound, r.inbound, r.inactive) refl
