-- ===== src/Tap/Laws.antt =====
-- libsponge/tcp_helpers/tuntap_adapter.cc: a segment goes through all layers, and back.
use csed.Base.{
  ℕ, ◌≡◌, refl, sym, subst, ap, ◌∙◌, Option, some, List, [], ◌∷◌, ◌++◌, append_assoc, append-nil,
  map,
}
use csed.Base.Dict.{find}
use csed.Parser.{is_error}
use csed.Ethernet.{EthernetAddress, EthernetFrame, parse_frame, serialize_frame}
use csed.Buffer.Views.{flat}
use csed.Segment.{TcpSegment}
use csed.Arp.{type_ipv4}
use csed.Datagram
use csed.Datagram.{Ipv4Datagram}
use csed.Datagram.Roundtrip.{sent_header, in_one, serialize_lem}
use csed.Adapter.{FdAdapterBase}
use csed.Adapter.Laws as AdapterLaws
use csed.NetworkInterface.{
  NetworkInterface, Outcome, returned, frame_to, push_frame, send_ipv4_frame, send_mapped, send_to,
  send_datagram,
}
use csed.NetworkInterface.Laws.{IsAddressed, wire}
use csed.NetworkInterface.Exchange.{arrives, received_lem}
use csed.Tap.{
  TapAdapter, default_frame, write_frames, send_pending, unwrap, received, take_frame, read, sent,
  write_datagram, write,
}

pub write_frames_lem :
    (written : List (List ℕ)) (frames : List EthernetFrame)
    → write_frames written frames ≡ written ++ map (λ f. flat (serialize_frame f)) frames
unfolding write_frames
write_frames_lem written [] = sym (append-nil written)
write_frames_lem written (f ∷ fs) =
    write_frames_lem (written ++ (flat (serialize_frame f) ∷ [])) fs
    ∙ append_assoc written (flat (serialize_frame f) ∷ []) (map (λ f. flat (serialize_frame f)) fs)

-- The frame that carries a segment.
abbrev pub carried : TapAdapter → EthernetAddress → TcpSegment → EthernetFrame
carried t eth seg = frame_to t.interface eth type_ipv4 (wire (AdapterLaws.carrier t.base seg))

send_mapped_lem :
    (n : NetworkInterface) (d : Ipv4Datagram) (ip t : ℕ) (eth : EthernetAddress)
    → Datagram.serialize d ≡ some (wire d)
    → find ip n.ip2eth ≡ some (eth, t)
    → send_to n ip (Datagram.serialize d) (find ip n.ip2eth)
      ≡ (push_frame n (frame_to n eth type_ipv4 (wire d)), returned)
unfolding send_to send_mapped send_ipv4_frame
send_mapped_lem n d ip t eth s m =
    ap (send_to n ip (Datagram.serialize d)) m ∙ ap (send_mapped n eth) s

-- Two adapters, on one network, of the two ends of a connection: the first knows the address of the second.
pub record IsLinked (a b : TapAdapter) : Type 0 where
  pub peer : AdapterLaws.IsPeer a.base b.base
  pub since : ℕ
  pub known : find a.next_hop.ip a.interface.ip2eth ≡ some (b.interface.ethernet_address, since)
  pub idle : a.interface.frames_out ≡ []
  pub here : IsAddressed a.interface
  pub there : IsAddressed b.interface

written_lem :
    (a : TapAdapter) (d : Ipv4Datagram) (t : ℕ) (eth : EthernetAddress)
    → Datagram.serialize d ≡ some (wire d)
    → find a.next_hop.ip a.interface.ip2eth ≡ some (eth, t)
    → a.interface.frames_out ≡ []
    → ((write_datagram a (some d)).0.written
        ≡ a.written ++ (flat (serialize_frame (frame_to a.interface eth type_ipv4 (wire d))) ∷ []))
      × ((write_datagram a (some d)).1 ≡ returned)
unfolding write_datagram sent send_pending send_datagram push_frame write_frames
written_lem a d t eth s m idle =
    let frame = frame_to a.interface eth type_ipv4 (wire d) in
    subst
      (λ (r : NetworkInterface × Outcome).
        ((sent a r).0.written ≡ a.written ++ (flat (serialize_frame frame) ∷ []))
        × ((sent a r).1 ≡ returned))
      (sym (send_mapped_lem a.interface d a.next_hop.ip t eth s m))
      (ap (λ fs. write_frames a.written (fs ++ (frame ∷ []))) idle, refl)

read_lem :
    (a b : TapAdapter) (seg : TcpSegment)
    → IsLinked a b
    → AdapterLaws.Fits a.base seg
    → ((read b (flat (serialize_frame (carried a b.interface.ethernet_address seg)))).1 ≡ returned)
      × ((read b (flat (serialize_frame (carried a b.interface.ethernet_address seg)))).2
          ≡ some (AdapterLaws.sent a.base seg))
unfolding read take_frame is_error received unwrap send_pending
read_lem a b seg l f =
    let frame = carried a b.interface.ethernet_address seg in
    let d = AdapterLaws.carrier a.base seg in
    let d' : Ipv4Datagram = in_one (record d { header = sent_header d.header }) in
    let taken : take_frame b (parse_frame default_frame (flat (serialize_frame frame)))
        ≡ unwrap (send_pending b) (some d') =
      ap (take_frame b) (arrives a.interface b.interface (wire d) default_frame l.here l.there)
      ∙ ap (received b)
          (received_lem a.interface b.interface d (AdapterLaws.carrier-IsWhole a.base seg f)) in
    let seen =
      AdapterLaws.unwrap-Carries a.base b.base seg d' l.peer f
        (AdapterLaws.sent-Carries a.base seg) in
    subst
      (λ (r : TapAdapter × Outcome × Option TcpSegment).
        (r.1 ≡ returned) × (r.2 ≡ some (AdapterLaws.sent a.base seg)))
      (sym taken)
      (
        ap (λ (r : FdAdapterBase × Outcome × Option TcpSegment). r.1) seen,
        ap (λ (r : FdAdapterBase × Outcome × Option TcpSegment). r.2) seen,
      )

-- Of two ends of a connection over TAP devices, the first of which knows the Ethernet address of the second and
-- has nothing to send: what it writes for a segment is one frame, and from its bytes the second reads
-- the same segment, with the ports and the checksum filled in. The segment's fields fit their widths,
-- its header has at least 20 bytes (`doff` is 5 or more), it fits a datagram, and the addresses are 32-bit
-- numbers and six bytes.
pub read-write :
    (a b : TapAdapter) (seg : TcpSegment)
    → IsLinked a b
    → AdapterLaws.Fits a.base seg
    → ((write a seg).2 ≡ returned)
      × ((write a seg).1.written
          ≡ a.written ++ (flat (serialize_frame (carried a b.interface.ethernet_address seg)) ∷ []))
      × ((read b (flat (serialize_frame (carried a b.interface.ethernet_address seg)))).1
          ≡ returned)
      × ((read b (flat (serialize_frame (carried a b.interface.ethernet_address seg)))).2
          ≡ some (AdapterLaws.sent a.base seg))
unfolding write
read-write a b seg l f =
    let d = AdapterLaws.carrier a.base seg in
    let eth = b.interface.ethernet_address in
    let (written, ends) =
      written_lem a d l.since eth (serialize_lem d (AdapterLaws.carrier-IsWhole a.base seg f))
        l.known l.idle in
    let (reads, seen) = read_lem a b seg l f in
    let wrap = AdapterLaws.wrap-carrier a.base seg f in
    (
      ap (λ m. (write_datagram a m).1) wrap ∙ ends,
      ap (λ m. (write_datagram a m).0.written) wrap ∙ written,
      reads,
      seen,
    )
