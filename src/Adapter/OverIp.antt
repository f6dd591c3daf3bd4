-- ===== src/Adapter/OverIp.antt =====
-- libsponge/tcp_helpers/tcp_over_ip.cc: segments in datagrams.
use csed.Base.{
  ℕ, ◌+◌, ◌*◌, ◌%◌, false, not, ◌&&◌, Option, none, some, List, ◌==◌, if◌then◌else◌, length,
  u16_mod,
}
use csed.Parser.{ParseResult, is_error}
use csed.Base.Outcomes.{Outcome, returned, thrown}
use csed.Buffer.Views.{as_buffer}
use csed.Segment.{TcpSegment, default_segment}
use csed.Segment.Codec
use csed.Ipv4
use csed.Ipv4.{pseudo_cksum, proto_tcp}
use csed.Datagram.{Ipv4Datagram}
use csed.Adapter.{FdAdapterBase, set_listening}

-- `listening()` and a SYN that is no RST: the peer's address becomes the destination, the address it
-- wrote to the source.
unfoldable pub adopt : FdAdapterBase → Ipv4Datagram → TcpSegment → FdAdapterBase
unfolding set_listening
adopt a dgram seg =
    set_listening
      (record a {
        cfg = record (a.cfg) {
          source = record { ip = dgram.header.dst; port = a.cfg.source.port };
          destination = record { ip = dgram.header.src; port = seg.header.sport };
        };
      })
      false

-- The last test: whether the segment is from the peer.
unfoldable pub from_peer : FdAdapterBase → TcpSegment → FdAdapterBase × Option TcpSegment
from_peer a seg = (a, if seg.header.sport == a.cfg.destination.port then some seg else none)

-- From the parsed segment on.
unfoldable pub take_segment :
    FdAdapterBase → Ipv4Datagram → ParseResult × TcpSegment → FdAdapterBase × Option TcpSegment
unfolding adopt from_peer is_error
take_segment a dgram (result, seg) =
    if is_error result
    then (a, none)
    else (if not (seg.header.dport == a.cfg.source.port)
        then (a, none)
        else (if a.listen
            then (if seg.header.syn && not seg.header.rst
                then from_peer (adopt a dgram seg) seg
                else (a, none))
            else from_peer a seg))

-- The payload as one `Buffer`, the conversion to which may throw, is parsed.
unfoldable pub take_payload :
    FdAdapterBase → Ipv4Datagram → Option (List ℕ) → FdAdapterBase × Outcome × Option TcpSegment
unfolding take_segment
take_payload a dgram none = (a, thrown, none)
take_payload a dgram (some bytes) =
    let (a', seg) =
      take_segment a dgram (Codec.parse default_segment bytes (pseudo_cksum dgram.header)) in
    (a', returned, seg)

unfoldable pub unwrap_tcp_in_ip :
    FdAdapterBase → Ipv4Datagram → FdAdapterBase × Outcome × Option TcpSegment
unfolding take_payload as_buffer
unwrap_tcp_in_ip a dgram =
    if not a.listen && not (dgram.header.dst == a.cfg.source.ip)
    then (a, returned, none)
    else (if not a.listen && not (dgram.header.src == a.cfg.destination.ip)
        then (a, returned, none)
        else (if not (dgram.header.proto == proto_tcp)
            then (a, returned, none)
            else take_payload a dgram (as_buffer dgram.payload)))

-- The segment with the ports of the connection.
unfoldable pub with_ports : FdAdapterBase → TcpSegment → TcpSegment
with_ports a seg = record seg {
  header = record (seg.header) { sport = a.cfg.source.port; dport = a.cfg.destination.port };
}

-- The header of the datagram; `len` is cut to 16 bits.
unfoldable pub ip_header : FdAdapterBase → TcpSegment → Ipv4.Ipv4Header
ip_header a seg = record (Ipv4.default_header) {
  src = a.cfg.source.ip;
  dst = a.cfg.destination.ip;
  len = (Ipv4.default_header.hlen * 4 + seg.header.doff * 4 + length seg.payload) % u16_mod;
}

unfoldable pub in_datagram : Ipv4.Ipv4Header → Option (List (List ℕ)) → Option Ipv4Datagram
in_datagram h none = none
in_datagram h (some buffers) = some (record { header = h; payload = buffers })

-- The segment, which is changed, and the datagram; `none` stands for the exception of `serialize`.
unfoldable pub wrap_tcp_in_ip : FdAdapterBase → TcpSegment → TcpSegment × Option Ipv4Datagram
unfolding with_ports ip_header in_datagram
wrap_tcp_in_ip a seg =
    let seg' = with_ports a seg in
    let h = ip_header a seg' in (seg', in_datagram h (Codec.serialize seg' (pseudo_cksum h)))
