-- ===== src/NetworkInterface/Examples.antt =====
-- Runs of libsponge/network_interface.cc.
use csed.Base.{◌+◌, ◌≡◌, ◌≤◌, refl, arith, some, none, [], ◌∷◌, ◌++◌, map, replicate}
use csed.Base.Dict.{find}
use csed.Buffer.Views.{flat, as_buffer}
use csed.Ethernet.{EthernetFrame, parse_frame, serialize_frame}
use csed.Parser.{no_error}
use csed.Arp.{ArpMessage, supported, type_ipv4}
use csed.Arp.Laws as ArpLaws
use csed.Ipv4
use csed.Datagram.{Ipv4Datagram}
use csed.Datagram.Roundtrip.{IsWhole, sent_header, in_one}
use csed.NetworkInterface.{
  NetworkInterface, returned, thrown, take_ipv4_payload, new, frame_to, type_arp, same_bytes,
  reply_message, send_datagram, recv_frame, tick, queue_of,
}
use csed.NetworkInterface.Laws.{IsAddressed, IsUnknown, wire, send_each, request_frame, reply_frame}
use csed.NetworkInterface.Receive.{Taken, recv_frame-Taken}
use csed.NetworkInterface.Invariant.{IsValid, sends, receives, starts, steps, Reachable-IsValid}
use csed.NetworkInterface.Expiry.{tick_expires, requests_repeat}
use csed.NetworkInterface.Exchange.{asking, answering, delivering, delivery}

abbrev here : NetworkInterface
unfolding new
here = new (2 ∷ 0 ∷ 0 ∷ 0 ∷ 0 ∷ 1 ∷ []) (record { ip = 0x0a00_0001; port = 0 })

abbrev there : NetworkInterface
unfolding new
there = new (2 ∷ 0 ∷ 0 ∷ 0 ∷ 0 ∷ 2 ∷ []) (record { ip = 0x0a00_0002; port = 0 })

abbrev datagram : Ipv4Datagram
unfolding Ipv4.default_header
datagram = record {
  header = record (Ipv4.default_header) { len = 22; src = 0x0a00_0001; dst = 0x0a00_0002 };
  payload = (5 ∷ 6 ∷ []) ∷ [];
}

datagram-IsWhole : IsWhole datagram
unfolding datagram Ipv4.default_header
datagram-IsWhole = record {
  word = record {
    ver = refl;
    hlen_low = omega arith;
    hlen_high = omega arith;
    tos = omega arith;
    len = omega arith;
    id = omega arith;
    offset = omega arith;
    ttl = omega arith;
    proto = omega arith;
    cksum = omega arith;
    src = omega arith;
    dst = omega arith;
  };
  sized = omega arith;
}

here-IsAddressed : IsAddressed here
unfolding here new
here-IsAddressed = record {
  ip = omega arith;
  ethernet_length = refl;
  ethernet_bytes =
      (omega arith, (omega arith, (omega arith, (omega arith, (omega arith, (omega arith, tt))))));
}

there-IsAddressed : IsAddressed there
unfolding there new
there-IsAddressed = record {
  ip = omega arith;
  ethernet_length = refl;
  ethernet_bytes =
      (omega arith, (omega arith, (omega arith, (omega arith, (omega arith, (omega arith, tt))))));
}

there-IsUnknown : IsUnknown here there.ip_address.ip
unfolding here new
there-IsUnknown = record { unmapped = refl; not_asked = refl; no_queue = refl }

-- A frame object before anything is read into it.
abbrev blank : EthernetFrame
blank = record { header = record { dst = []; src = []; type = 0 }; payload = [] }

abbrev frame : EthernetFrame
frame = frame_to here there.ethernet_address type_ipv4 (wire datagram)

delivery_example :
    ((asking here there datagram).frames_out
      ≡ here.frames_out ++ (request_frame here there.ip_address.ip ∷ []))
    × ((answering here there).frames_out
        ≡ there.frames_out
          ++ (reply_frame there here.ip_address.ip here.ethernet_address
              ∷ map
                  (frame_to there here.ethernet_address type_ipv4)
                  (queue_of (find here.ip_address.ip there.not_sent_dgrams))))
    × ((delivering here there datagram).frames_out
        ≡ (asking here there datagram).frames_out ++ (frame ∷ []))
    × ((parse_frame blank (flat (serialize_frame frame))).0 ≡ no_error)
    × (recv_frame (answering here there) (parse_frame blank (flat (serialize_frame frame))).1 ≡ (
      answering here there,
      returned,
      some (in_one (record datagram { header = sent_header datagram.header })),
    ))
delivery_example =
    delivery here there datagram blank here-IsAddressed there-IsAddressed there-IsUnknown
      datagram-IsWhole

-- The frame object itself has two buffers, which are not one `Buffer`: the call throws.
handed_over : (recv_frame there frame).1 ≡ thrown
unfolding recv_frame take_ipv4_payload as_buffer frame_to datagram there new same_bytes
handed_over = refl

-- The answer of `there`, taken by an interface with two datagrams that wait.
abbrev answer : ArpMessage
answer = reply_message there here.ip_address.ip here.ethernet_address

answer-IsWord : ArpLaws.IsWord answer
unfolding reply_message here there new
answer-IsWord = record {
  hardware_type = omega arith;
  protocol_type = omega arith;
  hardware_address_size = omega arith;
  protocol_address_size = omega arith;
  opcode = omega arith;
  sender_length = refl;
  sender_bytes = there-IsAddressed.ethernet_bytes;
  sender_ip_address = omega arith;
  target_length = refl;
  target_bytes = here-IsAddressed.ethernet_bytes;
  target_ip_address = omega arith;
}

abbrev answer_frame : EthernetFrame
answer_frame = record {
  header = record { dst = here.ethernet_address; src = there.ethernet_address; type = type_arp };
  payload = ArpLaws.wire answer ∷ [];
}

abbrev waits : NetworkInterface
waits = record here {
  not_mapped_ip_address = (0x0a00_0002, 0) ∷ [];
  not_sent_dgrams = (0x0a00_0002, ((1 ∷ []) ∷ []) ∷ ((2 ∷ []) ∷ (3 ∷ []) ∷ []) ∷ []) ∷ [];
  time_passed = 5001;
}

waits-IsAddressed : IsAddressed waits
unfolding here new
waits-IsAddressed = record {
  ip = here-IsAddressed.ip;
  ethernet_length = here-IsAddressed.ethernet_length;
  ethernet_bytes = here-IsAddressed.ethernet_bytes;
}

recv_frame-Taken_example :
    Taken waits (recv_frame waits answer_frame).0 answer
    × ((recv_frame waits answer_frame).1 ≡ returned)
    × ((recv_frame waits answer_frame).2 ≡ none)
unfolding as_buffer
recv_frame-Taken_example =
    recv_frame-Taken waits answer_frame answer waits-IsAddressed
      (unfold here new same_bytes in refl) refl refl answer-IsWord
      (unfold reply_message supported in refl)

-- More than five seconds after the request.
requests_repeat_example :
    ((send_each waits (datagram ∷ datagram ∷ []) there.ip_address).0.frames_out
      ≡ waits.frames_out ++ replicate 2 (request_frame waits there.ip_address.ip))
    × ((send_each waits (datagram ∷ datagram ∷ []) there.ip_address).1 ≡ returned)
requests_repeat_example =
    requests_repeat waits there.ip_address 0 (datagram ∷ datagram ∷ []) waits-IsAddressed
      there-IsAddressed.ip
      (unfold here there new in record { unmapped = refl; asked = refl; late = omega arith })
      (datagram-IsWhole, (datagram-IsWhole, tt))

-- A mapping of the time 0 at the time 30000, one millisecond before it is dropped.
abbrev knows : NetworkInterface
knows = record here {
  ip2eth = (0x0a00_0002, (there.ethernet_address, 0)) ∷ [];
  time_passed = 29000;
}

tick_expires_example :
    ((tick knows 1000).time_passed ≡ knows.time_passed + 1000)
    × (find there.ip_address.ip knows.ip2eth ≡ some (there.ethernet_address, 0)
        → knows.time_passed + 1000 ≤ 0 + 30000
        → find there.ip_address.ip (tick knows 1000).ip2eth ≡ some (there.ethernet_address, 0))
    × (find there.ip_address.ip (tick knows 1000).ip2eth ≡ some (there.ethernet_address, 0)
        → knows.time_passed + 1000 ≤ 0 + 30000)
    × ((tick knows 1000).frames_out ≡ knows.frames_out)
tick_expires_example =
    tick_expires knows 1000 there.ip_address.ip there.ethernet_address 0 (omega arith) (omega arith)

abbrev sent : NetworkInterface
sent = (send_datagram here datagram there.ip_address).0

Reachable-IsValid_example : IsValid (recv_frame sent answer_frame).0
Reachable-IsValid_example = Reachable-IsValid (recv_frame sent answer_frame).0 (
    steps sent _ (steps here _ (unfold here in starts _ _) (sends here datagram there.ip_address))
      (receives sent answer_frame))
