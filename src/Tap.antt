-- ===== src/Tap.antt =====
-- `TCPOverIPv4OverEthernetAdapter` of libsponge/tcp_helpers/tuntap_adapter.hh and .cc. `written` is what was written to
-- the TAP device, in order, each the bytes of all its buffers; what is read from it is an argument.
pub mod Laws
mod Examples
use csed.Base.{ℕ, Option, none, some, List, [], ◌∷◌, ◌++◌, if◌then◌else◌}
use csed.Buffer.Views.{flat}
use csed.Parser.{ParseResult, is_error}
use csed.Ethernet.{EthernetAddress, EthernetFrame, parse_frame, serialize_frame}
use csed.Segment.{TcpSegment}
use csed.Datagram.{Ipv4Datagram}
use csed.Adapter
use csed.Adapter.{Address, FdAdapterBase}
use csed.Adapter.OverIp.{unwrap_tcp_in_ip, wrap_tcp_in_ip}
use csed.NetworkInterface
use csed.NetworkInterface.{NetworkInterface, Outcome, returned, thrown, recv_frame, send_datagram}

pub record TapAdapter : Type 0 where
  pub base : FdAdapterBase
  pub interface : NetworkInterface
  pub next_hop : Address
  pub written : List (List ℕ)

-- An `EthernetFrame` that was only declared, its addresses and type of zeros.
unfoldable pub default_frame : EthernetFrame
default_frame = record {
  header = record { dst = 0 ∷ 0 ∷ 0 ∷ 0 ∷ 0 ∷ 0 ∷ []; src = 0 ∷ 0 ∷ 0 ∷ 0 ∷ 0 ∷ 0 ∷ []; type = 0 };
  payload = [];
}

-- The constructor writes a frame first.
unfoldable pub new : EthernetAddress → Address → Address → TapAdapter
unfolding default_frame
new eth_address ip_address next_hop = record {
  base = Adapter.new;
  interface = NetworkInterface.new eth_address ip_address;
  next_hop = next_hop;
  written = flat (serialize_frame default_frame) ∷ [];
}

-- The loop of `send_pending`, on the frames that are left.
unfoldable pub write_frames : List (List ℕ) → List EthernetFrame → List (List ℕ)
write_frames written [] = written
write_frames written (frame ∷ frames) =
    write_frames (written ++ (flat (serialize_frame frame) ∷ [])) frames

unfoldable pub send_pending : TapAdapter → TapAdapter
unfolding write_frames
send_pending t = record t {
  written = write_frames t.written t.interface.frames_out;
  interface = record (t.interface) { frames_out = [] };
}

-- The datagram of the frame, if there is one, taken as TCP.
unfoldable pub unwrap : TapAdapter → Option Ipv4Datagram → TapAdapter × Outcome × Option TcpSegment
unwrap t none = (t, returned, none)
unwrap t (some dgram) =
    let (a, outcome, seg) = unwrap_tcp_in_ip t.base dgram in (record t { base = a }, outcome, seg)

-- After `recv_frame`.
unfoldable pub received :
    TapAdapter
    → NetworkInterface × Outcome × Option Ipv4Datagram
    → TapAdapter × Outcome × Option TcpSegment
unfolding send_pending unwrap
received t (n, returned, dgram) = unwrap (send_pending (record t { interface = n })) dgram
received t (n, thrown, dgram) = (record t { interface = n }, thrown, none)

unfoldable pub take_frame :
    TapAdapter → ParseResult × EthernetFrame → TapAdapter × Outcome × Option TcpSegment
unfolding is_error received
take_frame t (result, frame) =
    let taken = received t (recv_frame t.interface frame) in
    if is_error result then (t, returned, none) else taken

unfoldable pub read : TapAdapter → List ℕ → TapAdapter × Outcome × Option TcpSegment
unfolding take_frame default_frame
read t bytes = take_frame t (parse_frame default_frame bytes)

unfoldable pub tick : TapAdapter → ℕ → TapAdapter
unfolding send_pending
tick t ms = send_pending (record t { interface = NetworkInterface.tick t.interface ms })

-- After `send_datagram`.
unfoldable pub sent : TapAdapter → NetworkInterface × Outcome → TapAdapter × Outcome
unfolding send_pending
sent t (n, returned) = (send_pending (record t { interface = n }), returned)
sent t (n, thrown) = (record t { interface = n }, thrown)

-- `send_datagram` of what `wrap_tcp_in_ip` gives, if it did not throw.
unfoldable pub write_datagram : TapAdapter → Option Ipv4Datagram → TapAdapter × Outcome
unfolding sent
write_datagram t none = (t, thrown)
write_datagram t (some dgram) = sent t (send_datagram t.interface dgram t.next_hop)

-- The segment, which is changed, the adapter, and whether it threw.
unfoldable pub write : TapAdapter → TcpSegment → TcpSegment × TapAdapter × Outcome
unfolding write_datagram
write t seg =
    let (seg', dgram) = wrap_tcp_in_ip t.base seg in
    let (t', outcome) = write_datagram t dgram in (seg', t', outcome)
