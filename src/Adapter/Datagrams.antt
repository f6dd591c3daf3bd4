-- ===== src/Adapter/Datagrams.antt =====
-- `TCPOverUDPSocketAdapter` of libsponge/tcp_helpers/fd_adapter.cc and `TCPOverIPv4OverTunFdAdapter` of
-- libsponge/tcp_helpers/tuntap_adapter.hh. What the socket or the device gave is an argument, what is
-- given to it, the bytes of all buffers, a result.
use csed.Base.{ℕ, false, not, ◌&&◌, Option, none, some, List, [], if◌then◌else◌}
use csed.Base.Outcomes.{Outcome, returned}
use csed.Buffer.Views.{flat}
use mathlib.Core.Option
use csed.Parser.{ParseResult, is_error}
use csed.Segment.{TcpSegment, default_segment}
use csed.Segment.Codec
use csed.Ipv4
use csed.Datagram
use csed.Datagram.{Ipv4Datagram}
use csed.Adapter.{Address, FdAdapterBase, same_address, set_listening}
use csed.Adapter.OverIp.{unwrap_tcp_in_ip, wrap_tcp_in_ip, with_ports}

-- From the parsed segment on, for a datagram from `source`.
unfoldable pub udp_take :
    FdAdapterBase → Address → ParseResult × TcpSegment → FdAdapterBase × Option TcpSegment
unfolding is_error set_listening
udp_take a source (result, seg) =
    if is_error result
    then (a, none)
    else (if a.listen
        then (if seg.header.syn && not seg.header.rst
            then (
              set_listening (record a { cfg = record (a.cfg) { destination = source } }) false,
              some seg,
            )
            else (a, none))
        else (a, some seg))

unfoldable pub udp_read : FdAdapterBase → Address → List ℕ → FdAdapterBase × Option TcpSegment
unfolding same_address udp_take
udp_read a source payload =
    if not a.listen && not (same_address source a.cfg.destination)
    then (a, none)
    else udp_take a source (Codec.parse default_segment payload 0)

-- The address and the bytes that go to the socket.
unfoldable pub udp_write : FdAdapterBase → TcpSegment → Address × Option (List ℕ)
unfolding with_ports
udp_write a seg = (a.cfg.destination, Option.map flat (Codec.serialize (with_ports a seg) 0))

-- An `InternetDatagram` that was only declared.
abbrev pub default_datagram : Ipv4Datagram
default_datagram = record { header = Ipv4.default_header; payload = [] }

unfoldable pub tun_take :
    FdAdapterBase → ParseResult × Ipv4Datagram → FdAdapterBase × Outcome × Option TcpSegment
unfolding is_error
tun_take a (result, dgram) =
    if is_error result then (a, returned, none) else unwrap_tcp_in_ip a dgram

unfoldable pub tun_read : FdAdapterBase → List ℕ → FdAdapterBase × Outcome × Option TcpSegment
unfolding tun_take
tun_read a bytes = tun_take a (Datagram.parse default_datagram bytes)

unfoldable pub serialized : Option Ipv4Datagram → Option (List (List ℕ))
serialized none = none
serialized (some dgram) = Datagram.serialize dgram

unfoldable pub tun_write : FdAdapterBase → TcpSegment → Option (List ℕ)
unfolding serialized
tun_write a seg = Option.map flat (serialized (wrap_tcp_in_ip a seg).1)
