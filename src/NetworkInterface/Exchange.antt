-- ===== src/NetworkInterface/Exchange.antt =====
-- libsponge/network_interface.cc: a datagram from one interface to another on its network, addresses first.
use csed.Base.{
  ℕ, ◌≡◌, refl, sym, subst, ap, ◌∙◌, Bool, true, false, ◌||◌, some, [], ◌∷◌, ◌++◌, map, arith, ◌==◌,
  if◌then◌else◌, List,
}
use csed.Base.Dict.{find, find-put_self}
use csed.Arp.{supported, type_ipv4}
use csed.Arp.Laws as ArpLaws
use csed.Datagram.{Ipv4Datagram}
use csed.Datagram.Roundtrip.{IsWhole, sent_header, in_one, sent-IsWhole, parse_lem}
use csed.Adapter.Datagrams.{default_datagram}
use csed.Buffer.Views.{flat, as_buffer}
use csed.Ethernet.{EthernetFrame, parse_frame, serialize_frame}
use csed.Ethernet.Laws as EthernetLaws
use csed.Parser.{ParseResult, no_error, is_error}
use csed.NetworkInterface.{
  NetworkInterface, Outcome, returned, frame_to, request_message, reply_message, queue_of,
  same_bytes, ethernet_broadcast, send_datagram, recv_frame, take_ipv4_payload, take_datagram,
}
use csed.NetworkInterface.Laws.{
  IsAddressed, IsUnknown, request_frame, reply_frame, wire, waiting, send_datagram_unmapped,
  send_first, request_message-IsWord,
}
use csed.NetworkInterface.Receive.{
  Taken, answers, for_me, recv_frame-Taken, recv_ipv4, reply_message-IsWord, same_bytes_refl,
}

-- Both interfaces after the request, and the first after the reply.
abbrev pub asking : NetworkInterface → NetworkInterface → Ipv4Datagram → NetworkInterface
asking a b d = (send_datagram a d b.ip_address).0

abbrev pub answering : NetworkInterface → NetworkInterface → NetworkInterface
answering a b = (recv_frame b (request_frame a b.ip_address.ip)).0

abbrev pub delivering : NetworkInterface → NetworkInterface → Ipv4Datagram → NetworkInterface
delivering a b d = (recv_frame (asking a b d) (reply_frame b a.ip_address.ip a.ethernet_address)).0

asking_lem :
    (a b : NetworkInterface) (d : Ipv4Datagram)
    → IsAddressed a
    → IsAddressed b
    → IsUnknown a b.ip_address.ip
    → IsWhole d
    → asking a b d ≡ waiting a b.ip_address.ip (wire d ∷ [])
asking_lem a b d wa wb u w =
    ap (λ (r : NetworkInterface × Outcome). r.0)
      (send_datagram_unmapped a d b.ip_address w u.unmapped
        ∙ send_first a b.ip_address.ip (wire d) wa wb.ip u)

answering_lem :
    (a b : NetworkInterface)
    → IsAddressed a
    → IsAddressed b
    → Taken b (answering a b) (request_message a b.ip_address.ip)
answering_lem a b wa wb =
    (recv_frame-Taken b (request_frame a b.ip_address.ip) (request_message a b.ip_address.ip) wb
      (unfold frame_to same_bytes in refl) (unfold frame_to in refl)
      (unfold frame_to as_buffer in refl) (request_message-IsWord a b.ip_address.ip wa wb.ip)
      (unfold request_message supported in refl)).0

or-true : (t : Bool) → (t || true) ≡ true
or-true true = refl
or-true false = refl

replied_lem :
    (a b : NetworkInterface) (d : Ipv4Datagram)
    → IsAddressed a
    → IsAddressed b
    → Taken
        (waiting a b.ip_address.ip (wire d ∷ []))
        (recv_frame
          (waiting a b.ip_address.ip (wire d ∷ []))
          (reply_frame b a.ip_address.ip a.ethernet_address)).0
        (reply_message b a.ip_address.ip a.ethernet_address)
replied_lem a b d wa wb =
    let n = waiting a b.ip_address.ip (wire d ∷ []) in
    let frame = reply_frame b a.ip_address.ip a.ethernet_address in
    let message = reply_message b a.ip_address.ip a.ethernet_address in
    let mine : for_me n frame ≡ true =
      unfold waiting frame_to in
      ap (λ t. same_bytes a.ethernet_address ethernet_broadcast || t)
        (same_bytes_refl a.ethernet_address)
      ∙ or-true (same_bytes a.ethernet_address ethernet_broadcast) in
    let word : ArpLaws.IsWord message =
      unfold request_message in
      reply_message-IsWord b (request_message a b.ip_address.ip) wb
        (request_message-IsWord a b.ip_address.ip wa wb.ip) in
    (recv_frame-Taken n frame message
      (unfold waiting in
        record {
          ip = wa.ip;
          ethernet_length = wa.ethernet_length;
          ethernet_bytes = wa.ethernet_bytes;
        })
      mine (unfold frame_to in refl) (unfold frame_to as_buffer in refl) word
      (unfold reply_message supported in refl)).0

==-refl : (n : ℕ) → (n == n) ≡ true
==-refl n = ground arith

answers-request :
    (a b : NetworkInterface)
    → answers b (request_message a b.ip_address.ip)
      ≡ reply_frame b a.ip_address.ip a.ethernet_address ∷ []
unfolding request_message
answers-request a b =
    ap (λ t. if t then reply_frame b a.ip_address.ip a.ethernet_address ∷ [] else [])
      (==-refl b.ip_address.ip)

answered :
    (a b : NetworkInterface)
    → IsAddressed a
    → IsAddressed b
    → (answering a b).frames_out
      ≡ b.frames_out
        ++ (reply_frame b a.ip_address.ip a.ethernet_address
            ∷ map
                (frame_to b a.ethernet_address type_ipv4)
                (queue_of (find a.ip_address.ip b.not_sent_dgrams)))
unfolding request_message
answered a b wa wb =
    (answering_lem a b wa wb).frames_out
    ∙ ap
        (λ fs.
          b.frames_out
          ++ (fs
              ++ map (frame_to b a.ethernet_address type_ipv4)
                  (queue_of (find a.ip_address.ip b.not_sent_dgrams))))
        (answers-request a b)

delivered :
    (a b : NetworkInterface) (d : Ipv4Datagram)
    → IsAddressed a
    → IsAddressed b
    → (recv_frame
        (waiting a b.ip_address.ip (wire d ∷ []))
        (reply_frame b a.ip_address.ip a.ethernet_address)).0.frames_out
      ≡ (waiting a b.ip_address.ip (wire d ∷ [])).frames_out
        ++ (frame_to a b.ethernet_address type_ipv4 (wire d) ∷ [])
unfolding reply_message waiting frame_to queue_of
delivered a b d wa wb =
    (replied_lem a b d wa wb).frames_out
    ∙ ap
        (λ q.
          (waiting a b.ip_address.ip (wire d ∷ [])).frames_out
          ++ map (frame_to a b.ethernet_address type_ipv4) (queue_of q))
        (find-put_self b.ip_address.ip (wire d ∷ []) a.not_sent_dgrams)

-- The frame as it comes out of the bytes of the device: its payload is one buffer.
abbrev pub arrived : EthernetFrame → EthernetFrame
arrived f = record f { payload = flat f.payload ∷ [] }

frame-IsWord :
    (a b : NetworkInterface) (payload : List (List ℕ))
    → IsAddressed a
    → IsAddressed b
    → EthernetLaws.IsWord (frame_to a b.ethernet_address type_ipv4 payload).header
unfolding frame_to
frame-IsWord a b payload wa wb = record {
  dst_length = wb.ethernet_length;
  src_length = wa.ethernet_length;
  dst_bytes = wb.ethernet_bytes;
  src_bytes = wa.ethernet_bytes;
  type_word = omega arith;
}

pub arrives :
    (a b : NetworkInterface) (payload : List (List ℕ)) (before : EthernetFrame)
    → IsAddressed a
    → IsAddressed b
    → parse_frame before (flat (serialize_frame (frame_to a b.ethernet_address type_ipv4 payload)))
      ≡ (no_error, arrived (frame_to a b.ethernet_address type_ipv4 payload))
arrives a b payload before wa wb =
    EthernetLaws.parse_frame-serialize_frame (frame_to a b.ethernet_address type_ipv4 payload)
      before (frame-IsWord a b payload wa wb)

pub received_lem :
    (a b : NetworkInterface) (d : Ipv4Datagram)
    → IsWhole d
    → recv_frame b (arrived (frame_to a b.ethernet_address type_ipv4 (wire d)))
      ≡ (b, returned, some (in_one (record d { header = sent_header d.header })))
unfolding take_ipv4_payload take_datagram is_error frame_to as_buffer
received_lem a b d w =
    let frame = arrived (frame_to a b.ethernet_address type_ipv4 (wire d)) in
    let mine : for_me b frame ≡ true =
      ap (λ t. same_bytes b.ethernet_address ethernet_broadcast || t)
        (same_bytes_refl b.ethernet_address)
      ∙ or-true (same_bytes b.ethernet_address ethernet_broadcast) in
    recv_ipv4 b frame mine refl
    ∙ ap (λ r. (b, returned, take_datagram r))
        (parse_lem default_datagram (record d { header = sent_header d.header }) (sent-IsWhole d w))

-- The frames of the exchange, in their order: the request goes out alone; the other interface answers it (before
-- it sends what waits for the first); the datagram goes out to the address of the answer; its bytes are
-- parsed as a frame without an error, whatever the frame object held before; and the other interface takes
-- the datagram out of that frame, with the checksum of its header filled in and the payload in one
-- buffer. The first interface knows nothing of the other's address, the addresses are 32-bit numbers and
-- six bytes, and the datagram has version 4, a header of 20 to 60 bytes, the length of the whole,
-- and fields that fit.
pub delivery :
    (a b : NetworkInterface) (d : Ipv4Datagram) (before : EthernetFrame)
    → IsAddressed a
    → IsAddressed b
    → IsUnknown a b.ip_address.ip
    → IsWhole d
    → let frame = frame_to a b.ethernet_address type_ipv4 (wire d) in
      let parsed = parse_frame before (flat (serialize_frame frame)) in
      ((asking a b d).frames_out ≡ a.frames_out ++ (request_frame a b.ip_address.ip ∷ []))
      × ((answering a b).frames_out
          ≡ b.frames_out
            ++ (reply_frame b a.ip_address.ip a.ethernet_address
                ∷ map
                    (frame_to b a.ethernet_address type_ipv4)
                    (queue_of (find a.ip_address.ip b.not_sent_dgrams))))
      × ((delivering a b d).frames_out ≡ (asking a b d).frames_out ++ (frame ∷ []))
      × (parsed.0 ≡ no_error)
      × (recv_frame (answering a b) parsed.1
          ≡ (answering a b, returned, some (in_one (record d { header = sent_header d.header }))))
delivery a b d before wa wb u w =
    let e = asking_lem a b d wa wb u w in
    let come = arrives a b (wire d) before wa wb in
    (
      unfold waiting in ap (λ (n : NetworkInterface). n.frames_out) e,
      answered a b wa wb,
      subst
          (λ (n : NetworkInterface).
            (recv_frame n (reply_frame b a.ip_address.ip a.ethernet_address)).0.frames_out
            ≡ n.frames_out ++ (frame_to a b.ethernet_address type_ipv4 (wire d) ∷ []))
          (sym e) (delivered a b d wa wb),
      ap (λ (r : ParseResult × EthernetFrame). r.0) come,
      ap (λ (r : ParseResult × EthernetFrame). recv_frame (answering a b) r.1) come
          ∙ subst
              (λ eth. recv_frame (answering a b) (arrived (frame_to a eth type_ipv4 (wire d))) ≡ (
                answering a b,
                returned,
                some (in_one (record d { header = sent_header d.header })),
              ))
              (answering_lem a b wa wb).ethernet_address (received_lem a (answering a b) d w),
    )
