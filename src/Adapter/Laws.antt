-- ===== src/Adapter/Laws.antt =====
-- libsponge/tcp_helpers/tcp_over_ip.cc and tuntap_adapter.hh: what one end writes, the other reads.
use csed.Base.{
  ℕ, ◌+◌, ◌*◌, ◌^◌, ◌≤◌, ◌<◌, ◌≡◌, refl, sym, ap, ap₂, ◌∙◌, true, false, not, ◌&&◌, some, ◌++◌,
  arith, ◌==◌, length, length-append, [], ◌∷◌, append-nil, Option,
}
use mathlib.Core.Option
use csed.Base.Outcomes.{returned}
use csed.Buffer.Views.{flat, flat_two, as_buffer}
use csed.Parser.{no_error, is_error}
use csed.Segment.{TcpSegment, default_segment}
use csed.Segment.Codec
use csed.Segment.Fields
use csed.Segment.Fields.{head, length-head}
use csed.Segment.Roundtrip
use csed.Segment.Roundtrip.{sent_header, serialize_lem, parse_lem}
use csed.Ipv4
use csed.Ipv4.{Ipv4Header, pseudo_cksum, payload_length, proto_tcp}
use csed.Datagram.{Ipv4Datagram}
use csed.Datagram.Roundtrip as IpTrip
use csed.Adapter.{Address, FdAdapterBase, set_listening}
use csed.Adapter.OverIp.{
  adopt, from_peer, take_payload, take_segment, unwrap_tcp_in_ip, with_ports, ip_header,
  in_datagram, wrap_tcp_in_ip,
}
use csed.Adapter.Datagrams.{default_datagram, tun_take, tun_read, serialized, tun_write}

-- A segment that fits a datagram between 32-bit addresses, its fields their widths.
pub record Fits (a : FdAdapterBase) (seg : TcpSegment) : Type 0 where
  pub word : Fields.IsWord (with_ports a seg).header
  pub doff_low : 5 ≤ seg.header.doff
  pub size : 20 + 4 * seg.header.doff + length seg.payload < 2 ^ 16
  pub source : a.cfg.source.ip < 2 ^ 32
  pub destination : a.cfg.destination.ip < 2 ^ 32

-- The segment as it goes out: with the ports, and the checksum over the addresses too.
abbrev pub sent : FdAdapterBase → TcpSegment → TcpSegment
sent a seg =
    let seg' = with_ports a seg in
    record seg' { header = sent_header seg' (pseudo_cksum (ip_header a seg')) }

pseudo_cksum-le :
    (h : Ipv4Header) → h.src < 2 ^ 32 → h.dst < 2 ^ 32 → h.proto < 256 → pseudo_cksum h ≤ 330000
unfolding pseudo_cksum payload_length
pseudo_cksum-le h s d p = omega (arith, s, d, p)

Fits-IsWhole :
    (a : FdAdapterBase) (seg : TcpSegment)
    → Fits a seg
    → Roundtrip.IsWhole (with_ports a seg) (pseudo_cksum (ip_header a (with_ports a seg)))
unfolding with_ports
Fits-IsWhole a seg f = record {
  word = f.word;
  doff_low = f.doff_low;
  short =
      let size = f.size in
      let small : pseudo_cksum (ip_header a (with_ports a seg)) ≤ 330000 =
        unfold ip_header Ipv4.default_header in
        pseudo_cksum-le (ip_header a (with_ports a seg)) f.source f.destination (omega arith) in
      omega (arith, small, size);
}

-- The datagram that carries a segment.
abbrev pub carrier : FdAdapterBase → TcpSegment → Ipv4Datagram
carrier a seg = record {
  header = ip_header a (with_ports a seg);
  payload = head (sent a seg).header ∷ seg.payload ∷ [];
}

pub wrap-carrier :
    (a : FdAdapterBase) (seg : TcpSegment)
    → Fits a seg
    → (wrap_tcp_in_ip a seg).1 ≡ some (carrier a seg)
unfolding wrap_tcp_in_ip in_datagram
wrap-carrier a seg f =
    let seg' = with_ports a seg in
    let h = ip_header a seg' in
    ap (in_datagram h) (serialize_lem seg' (pseudo_cksum h) (Fits-IsWhole a seg f))

-- Two ends of a connection, the second of which listens no more.
pub record IsPeer (a b : FdAdapterBase) : Type 0 where
  pub here : b.cfg.source ≡ a.cfg.destination
  pub there : b.cfg.destination ≡ a.cfg.source
  pub connected : b.listen ≡ false

==-refl : (n : ℕ) → (n == n) ≡ true
==-refl n = ground arith

same_port : (m n : ℕ) → m ≡ n → (m == n) ≡ true
same_port m n e = ground (arith, e)

-- A datagram that carries a segment as it was sent.
pub record Carries (a : FdAdapterBase) (seg : TcpSegment) (dgram : Ipv4Datagram) : Type 0 where
  pub src : dgram.header.src ≡ a.cfg.source.ip
  pub dst : dgram.header.dst ≡ a.cfg.destination.ip
  pub proto : dgram.header.proto ≡ proto_tcp
  pub pseudo : pseudo_cksum dgram.header ≡ pseudo_cksum (ip_header a (with_ports a seg))
  pub payload : dgram.payload ≡ (head (sent a seg).header ++ seg.payload) ∷ []

parse-Carries :
    (a : FdAdapterBase) (seg : TcpSegment) (dgram : Ipv4Datagram)
    → Fits a seg
    → Carries a seg dgram
    → Codec.parse default_segment
        (head (sent a seg).header ++ seg.payload)
        (pseudo_cksum dgram.header)
      ≡ (no_error, sent a seg)
unfolding with_ports head
parse-Carries a seg dgram f c =
    ap (Codec.parse default_segment (head (sent a seg).header ++ seg.payload)) c.pseudo
    ∙ parse_lem default_segment (with_ports a seg) _ (Fits-IsWhole a seg f)

-- What is parsed of its payload.
take_payload-Carries :
    (a b : FdAdapterBase) (seg : TcpSegment) (dgram : Ipv4Datagram)
    → Fits a seg
    → Carries a seg dgram
    → take_payload b dgram (as_buffer dgram.payload)
      ≡ (let r = take_segment b dgram (no_error, sent a seg) in (r.0, returned, r.1))
unfolding take_payload as_buffer
take_payload-Carries a b seg dgram f c =
    ap (λ p. take_payload b dgram (as_buffer p)) c.payload
    ∙ ap (λ r. let k = take_segment b dgram r in (k.0, returned, k.1))
        (parse-Carries a seg dgram f c)

pub unwrap-Carries :
    (a b : FdAdapterBase) (seg : TcpSegment) (dgram : Ipv4Datagram)
    → IsPeer a b
    → Fits a seg
    → Carries a seg dgram
    → unwrap_tcp_in_ip b dgram ≡ (b, returned, some (sent a seg))
unfolding unwrap_tcp_in_ip take_segment from_peer is_error with_ports
unwrap-Carries a b seg dgram p f c =
    let dst : (dgram.header.dst == b.cfg.source.ip) ≡ true =
      same_port _ _ (c.dst ∙ ap (λ (x : Address). x.ip) (sym p.here)) in
    let src : (dgram.header.src == b.cfg.destination.ip) ≡ true =
      same_port _ _ (c.src ∙ ap (λ (x : Address). x.ip) (sym p.there)) in
    let tcp : (dgram.header.proto == proto_tcp) ≡ true = same_port _ _ c.proto in
    let dport : (a.cfg.destination.port == b.cfg.source.port) ≡ true =
      same_port _ _ (ap (λ (x : Address). x.port) (sym p.here)) in
    let sport : (a.cfg.source.port == b.cfg.destination.port) ≡ true =
      same_port _ _ (ap (λ (x : Address). x.port) (sym p.there)) in
    let taken : take_segment b dgram (no_error, sent a seg) ≡ (b, some (sent a seg)) =
      rw (p.connected, dport, sport) refl in
    let passes : unwrap_tcp_in_ip b dgram ≡ take_payload b dgram (as_buffer dgram.payload) =
      simp (p.connected, dst, src, tcp) in
    passes
    ∙ (take_payload-Carries a b seg dgram f c
        ∙ ap (λ (r : FdAdapterBase × Option TcpSegment). (r.0, returned, r.1)) taken)

-- At an end that listens.
pub record IsListening (a b : FdAdapterBase) (seg : TcpSegment) : Type 0 where
  pub listening : b.listen ≡ true
  pub port : b.cfg.source.port ≡ a.cfg.destination.port
  pub syn : seg.header.syn ≡ true
  pub not_rst : seg.header.rst ≡ false

-- The end after it took the addresses of the other.
abbrev pub accepted : FdAdapterBase → FdAdapterBase → FdAdapterBase
accepted a b = record b {
  cfg = record (b.cfg) { source = a.cfg.destination; destination = a.cfg.source };
  listen = false;
}

from_peer-adopt :
    (a : FdAdapterBase) (dgram : Ipv4Datagram) (seg : TcpSegment)
    → from_peer (adopt a dgram seg) seg ≡ (adopt a dgram seg, some seg)
unfolding from_peer adopt set_listening
from_peer-adopt a dgram seg = rw (==-refl seg.header.sport) refl

take_segment-listening :
    (a : FdAdapterBase) (dgram : Ipv4Datagram) (seg : TcpSegment)
    → (seg.header.dport == a.cfg.source.port) ≡ true
    → a.listen ≡ true
    → (seg.header.syn && not seg.header.rst) ≡ true
    → take_segment a dgram (no_error, seg) ≡ (adopt a dgram seg, some seg)
unfolding take_segment is_error
take_segment-listening a dgram seg dport listening opens =
    rw (dport, listening, opens) (from_peer-adopt a dgram seg)

adopt-Carries :
    (a b : FdAdapterBase) (seg : TcpSegment) (dgram : Ipv4Datagram)
    → b.cfg.source.port ≡ a.cfg.destination.port
    → Carries a seg dgram
    → adopt b dgram (sent a seg) ≡ accepted a b
unfolding adopt set_listening with_ports
adopt-Carries a b seg dgram port c = λ i. record b {
  cfg = record (b.cfg) {
    source = record { ip = c.dst i; port = port i };
    destination = record { ip = c.src i; port = a.cfg.source.port };
  };
  listen = false;
}

unwrap-listening :
    (b : FdAdapterBase) (dgram : Ipv4Datagram)
    → b.listen ≡ true
    → (dgram.header.proto == proto_tcp) ≡ true
    → unwrap_tcp_in_ip b dgram ≡ take_payload b dgram (as_buffer dgram.payload)
unfolding unwrap_tcp_in_ip
unwrap-listening b dgram listening tcp = simp (listening, tcp)

accept-Carries :
    (a b : FdAdapterBase) (seg : TcpSegment) (dgram : Ipv4Datagram)
    → IsListening a b seg
    → Fits a seg
    → Carries a seg dgram
    → unwrap_tcp_in_ip b dgram ≡ (accepted a b, returned, some (sent a seg))
accept-Carries a b seg dgram l f c =
    let dport : (a.cfg.destination.port == b.cfg.source.port) ≡ true = same_port _ _ (sym l.port) in
    let opens : (seg.header.syn && not seg.header.rst) ≡ true =
      ap₂ (λ x y. x && not y) l.syn l.not_rst in
    unwrap-listening b dgram l.listening (same_port _ _ c.proto)
    ∙ take_payload-Carries a b seg dgram f c
    ∙ ap (λ (r : FdAdapterBase × Option TcpSegment). (r.0, returned, r.1))
        (take_segment-listening b dgram (sent a seg) (unfold with_ports in dport) l.listening
            (unfold with_ports in opens)
          ∙ ap (λ x. (x, some (sent a seg))) (adopt-Carries a b seg dgram l.port c))

pub carrier-IsWhole :
    (a : FdAdapterBase) (seg : TcpSegment) → Fits a seg → IpTrip.IsWhole (carrier a seg)
unfolding ip_header Ipv4.default_header with_ports
carrier-IsWhole a seg f =
    let size = f.size in
    let bytes = length-append (head (sent a seg).header) (seg.payload ++ []) in
    let one = ap length (append-nil seg.payload) in
    let l = length-head (sent a seg).header f.doff_low in
    record {
      word = record {
        ver = refl;
        hlen_low = omega arith;
        hlen_high = omega arith;
        tos = omega arith;
        len = omega arith;
        id = omega arith;
        offset = omega arith;
        ttl = omega arith;
        proto = omega arith;
        cksum = omega arith;
        src = f.source;
        dst = f.destination;
      };
      sized = omega (arith, size, bytes, l, one);
    }

-- The datagram as it is sent carries the segment.
pub sent-Carries :
    (a : FdAdapterBase) (seg : TcpSegment)
    → Carries a seg (
        IpTrip.in_one
          (record (carrier a seg) { header = IpTrip.sent_header (carrier a seg).header }))
unfolding ip_header pseudo_cksum payload_length Ipv4.default_header
sent-Carries a seg = record {
  src = refl;
  dst = refl;
  proto = refl;
  pseudo = refl;
  payload = ap (λ xs. xs ∷ []) (flat_two (head (sent a seg).header) seg.payload);
}

read-write :
    (a b c : FdAdapterBase) (seg : TcpSegment)
    → Fits a seg
    → ((dgram : Ipv4Datagram)
        → Carries a seg dgram
        → unwrap_tcp_in_ip b dgram ≡ (c, returned, some (sent a seg)))
    → Option.map (tun_read b) (tun_write a seg) ≡ some (c, returned, some (sent a seg))
unfolding tun_write tun_read serialized tun_take is_error
read-write a b c seg f taken =
    let d = carrier a seg in
    let whole = carrier-IsWhole a seg f in
    ap (λ m. Option.map (tun_read b) (Option.map flat (serialized m))) (wrap-carrier a seg f)
    ∙ ap (λ m. Option.map (tun_read b) (Option.map flat m)) (IpTrip.serialize_lem d whole)
    ∙ ap some (
        ap (tun_take b) (
          IpTrip.parse_lem default_datagram (record d { header = IpTrip.sent_header d.header })
            (IpTrip.sent-IsWhole d whole))
        ∙ taken _ (sent-Carries a seg))

-- Of two ends of a connection over TUN devices, with 32-bit addresses: what one writes, the other
-- reads as the same segment, with the ports and the checksum filled in, and stays as it is. The
-- segment's fields fit their widths, its header has at least 20 bytes, and it fits a datagram.
pub tun_read-tun_write :
    (a b : FdAdapterBase) (seg : TcpSegment)
    → IsPeer a b
    → Fits a seg
    → Option.map (tun_read b) (tun_write a seg) ≡ some (b, returned, some (sent a seg))
tun_read-tun_write a b seg p f = read-write a b b seg f (λ d c. unwrap-Carries a b seg d p f c)

-- An end that listens on the port to which a SYN without RST is sent reads it as the same segment, with
-- the ports and the checksum filled in, listens no more, and takes the addresses of the
-- connection, so that it is a peer of the sender. The segment's fields fit their widths, its header has at
-- least 20 bytes (`doff` is 5 or more), and it fits a datagram between 32-bit addresses.
pub tun_accept :
    (a b : FdAdapterBase) (seg : TcpSegment)
    → IsListening a b seg
    → Fits a seg
    → (Option.map (tun_read b) (tun_write a seg) ≡ some (accepted a b, returned, some (sent a seg)))
      × IsPeer a (accepted a b)
tun_accept a b seg l f = (
  read-write a b (accepted a b) seg f (λ d c. accept-Carries a b seg d l f c),
  record { here = refl; there = refl; connected = refl },
)
