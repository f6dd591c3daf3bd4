-- ===== src/NetworkInterface.antt =====
-- libsponge/network_interface.hh and .cc. A `BufferList` is the list of the views of its buffers, a queue the
-- list of its frames from the front, and the time is a `size_t`.
pub mod Laws
pub mod Receive
pub mod Maps
pub mod Invariant
pub mod Expiry
pub mod Exchange
mod Examples
use csed.Base.{
  ℕ, ◌+◌, ◌%◌, Bool, true, false, ◌&&◌, ◌||◌, Option, none, some, List, [], ◌∷◌, ◌++◌, ltb, ◌==◌,
  if◌then◌else◌, u64_mod,
}
pub use csed.Base.Outcomes.{Outcome, returned, thrown}
use csed.Base.Dict.{Dict, find, put, erase}
use csed.Buffer.Views.{as_buffer}
use csed.Parser.{ParseResult, is_error}
use csed.Ethernet.{EthernetAddress, EthernetFrame}
use csed.Arp
use csed.Arp.{ArpMessage, opcode_request, opcode_reply, type_ethernet, type_ipv4}
use csed.Datagram
use csed.Datagram.{Ipv4Datagram}
use csed.Adapter.{Address}
use csed.Adapter.Datagrams.{default_datagram}

abbrev pub ethernet_broadcast : EthernetAddress
ethernet_broadcast = 0xff ∷ 0xff ∷ 0xff ∷ 0xff ∷ 0xff ∷ 0xff ∷ []

abbrev pub type_arp : ℕ
type_arp = 0x806

pub record NetworkInterface : Type 0 where
  pub ethernet_address : EthernetAddress
  pub ip_address : Address
  pub frames_out : List EthernetFrame
  pub time_passed : ℕ
  pub ip2eth : Dict (EthernetAddress × ℕ)
  pub not_mapped_ip_address : Dict ℕ
  pub not_sent_dgrams : Dict (List (List (List ℕ)))

unfoldable pub new : EthernetAddress → Address → NetworkInterface
new ethernet_address ip_address = record {
  ethernet_address = ethernet_address;
  ip_address = ip_address;
  frames_out = [];
  time_passed = 0;
  ip2eth = [];
  not_mapped_ip_address = [];
  not_sent_dgrams = [];
}

-- `==` of two `std::array`s.
unfoldable pub same_bytes : List ℕ → List ℕ → Bool
same_bytes [] [] = true
same_bytes [] (y ∷ ys) = false
same_bytes (x ∷ xs) [] = false
same_bytes (x ∷ xs) (y ∷ ys) = (x == y) && same_bytes xs ys

-- The frame that an interface builds.
unfoldable pub frame_to : NetworkInterface → EthernetAddress → ℕ → List (List ℕ) → EthernetFrame
frame_to n dst type payload = record {
  header = record { dst = dst; src = n.ethernet_address; type = type };
  payload = payload;
}

unfoldable pub push_frame : NetworkInterface → EthernetFrame → NetworkInterface
push_frame n frame = record n { frames_out = n.frames_out ++ (frame ∷ []) }

unfoldable pub send_ipv4_frame :
    NetworkInterface → EthernetAddress → List (List ℕ) → NetworkInterface
unfolding frame_to push_frame
send_ipv4_frame n dst payload = push_frame n (frame_to n dst type_ipv4 payload)

unfoldable pub request_message : NetworkInterface → ℕ → ArpMessage
request_message n target = record {
  hardware_type = type_ethernet;
  protocol_type = type_ipv4;
  hardware_address_size = 6;
  protocol_address_size = 4;
  opcode = opcode_request;
  sender_ethernet_address = n.ethernet_address;
  sender_ip_address = n.ip_address.ip;
  target_ethernet_address = 0 ∷ 0 ∷ 0 ∷ 0 ∷ 0 ∷ 0 ∷ [];
  target_ip_address = target;
}

unfoldable pub reply_message : NetworkInterface → ℕ → EthernetAddress → ArpMessage
reply_message n ip eth = record {
  hardware_type = type_ethernet;
  protocol_type = type_ipv4;
  hardware_address_size = 6;
  protocol_address_size = 4;
  opcode = opcode_reply;
  sender_ethernet_address = n.ethernet_address;
  sender_ip_address = n.ip_address.ip;
  target_ethernet_address = eth;
  target_ip_address = ip;
}

-- The frame with a serialized message; without one `serialize` threw.
unfoldable pub push_arp :
    NetworkInterface → EthernetAddress → Option (List ℕ) → NetworkInterface × Outcome
unfolding frame_to push_frame
push_arp n dst none = (n, thrown)
push_arp n dst (some bytes) = (push_frame n (frame_to n dst type_arp (bytes ∷ [])), returned)

unfoldable pub send_arp_request : NetworkInterface → ℕ → NetworkInterface × Outcome
unfolding push_arp request_message
send_arp_request n target = push_arp n ethernet_broadcast (Arp.serialize (request_message n target))

unfoldable pub send_arp_reply : NetworkInterface → ℕ → EthernetAddress → NetworkInterface × Outcome
unfolding push_arp reply_message
send_arp_reply n ip eth = push_arp n eth (Arp.serialize (reply_message n ip eth))

-- `_send_IP_v4_frame(address, dgram.serialize())`.
unfoldable pub send_mapped :
    NetworkInterface → EthernetAddress → Option (List (List ℕ)) → NetworkInterface × Outcome
unfolding send_ipv4_frame
send_mapped n dst none = (n, thrown)
send_mapped n dst (some bytes) = (send_ipv4_frame n dst bytes, returned)

-- Whether an ARP request is sent: the first for the address, or after the time.
unfoldable pub request_due : NetworkInterface → Option ℕ → Bool
request_due n none = true
request_due n (some t) = ltb ((t + 5000) % u64_mod) n.time_passed

-- `_not_mapped_ip_address[next_hop_ip] = _time_passed`, unless it is there.
unfoldable pub note_request : NetworkInterface → ℕ → Option ℕ → NetworkInterface
note_request n ip (some t) = n
note_request n ip none = record n {
  not_mapped_ip_address = put ip n.time_passed n.not_mapped_ip_address;
}

-- `_not_sent_dgrams[next_hop_ip]`, which adds an empty queue where there is none.
unfoldable pub queue_of : Option (List (List (List ℕ))) → List (List (List ℕ))
queue_of none = []
queue_of (some bytes) = bytes

unfoldable pub enqueue : NetworkInterface → ℕ → Option (List (List ℕ)) → NetworkInterface × Outcome
unfolding queue_of
enqueue n ip none = (
  record n { not_sent_dgrams = put ip (queue_of (find ip n.not_sent_dgrams)) n.not_sent_dgrams },
  thrown,
)
enqueue n ip (some buffers) = (
  record n {
    not_sent_dgrams =
        put ip (queue_of (find ip n.not_sent_dgrams) ++ (buffers ∷ [])) n.not_sent_dgrams;
  },
  returned,
)

-- A call after one that may have thrown.
unfoldable pub after :
    NetworkInterface × Outcome
    → (NetworkInterface → NetworkInterface × Outcome)
    → NetworkInterface × Outcome
after (n, returned) next = next n
after (n, thrown) next = (n, thrown)

-- `send_datagram` where the address is not mapped.
unfoldable pub send_unmapped :
    NetworkInterface → ℕ → Option (List (List ℕ)) → NetworkInterface × Outcome
unfolding after send_arp_request note_request enqueue request_due
send_unmapped n ip bytes =
    let t = find ip n.not_mapped_ip_address in
    after (if request_due n t then send_arp_request n ip else (n, returned))
      (λ n'. enqueue (note_request n' ip t) ip bytes)

unfoldable pub send_to :
    NetworkInterface
    → ℕ
    → Option (List (List ℕ))
    → Option (EthernetAddress × ℕ)
    → NetworkInterface × Outcome
unfolding send_mapped send_unmapped
send_to n ip bytes (some (eth, t)) = send_mapped n eth bytes
send_to n ip bytes none = send_unmapped n ip bytes

unfoldable pub send_datagram :
    NetworkInterface → Ipv4Datagram → Address → NetworkInterface × Outcome
unfolding send_to
send_datagram n dgram next_hop =
    send_to n next_hop.ip (Datagram.serialize dgram) (find next_hop.ip n.ip2eth)

-- The loop of `_send_not_sent_datagrams`.
unfoldable pub send_all :
    NetworkInterface → EthernetAddress → List (List (List ℕ)) → NetworkInterface
unfolding send_ipv4_frame
send_all n eth [] = n
send_all n eth (bytes ∷ rest) = send_all (send_ipv4_frame n eth bytes) eth rest

unfoldable pub forget : NetworkInterface → ℕ → NetworkInterface
forget n ip = record n {
  not_sent_dgrams = erase ip n.not_sent_dgrams;
  not_mapped_ip_address = erase ip n.not_mapped_ip_address;
}

unfoldable pub send_queue :
    NetworkInterface → ℕ → EthernetAddress → Option (List (List (List ℕ))) → NetworkInterface
unfolding forget send_all
send_queue n ip eth none = n
send_queue n ip eth (some queue) = forget (send_all n eth queue) ip

unfoldable pub send_not_sent_datagrams : NetworkInterface → ℕ → EthernetAddress → NetworkInterface
unfolding send_queue
send_not_sent_datagrams n ip eth = send_queue n ip eth (find ip n.not_sent_dgrams)

unfoldable pub learn : NetworkInterface → ℕ → EthernetAddress → NetworkInterface
learn n ip eth = record n { ip2eth = put ip (eth, n.time_passed) n.ip2eth }

-- The body of the test of a parsed message.
unfoldable pub take_arp : NetworkInterface → ParseResult × ArpMessage → NetworkInterface × Outcome
unfolding learn send_arp_reply send_not_sent_datagrams after is_error
take_arp n (result, msg) =
    let ip = msg.sender_ip_address in
    let eth = msg.sender_ethernet_address in
    let n' = learn n ip eth in
    if is_error result
    then (n, returned)
    else after
        (if (msg.opcode == opcode_request) && (msg.target_ip_address == n'.ip_address.ip)
          then send_arp_reply n' ip eth
          else (n', returned))
        (λ m. (send_not_sent_datagrams m ip eth, returned))

unfoldable pub take_datagram : ParseResult × Ipv4Datagram → Option Ipv4Datagram
unfolding is_error
take_datagram (result, dgram) = if is_error result then none else some dgram

-- A default `ARPMessage`, which `parse` fills.
unfoldable pub blank_message : ArpMessage
blank_message = record {
  hardware_type = type_ethernet;
  protocol_type = type_ipv4;
  hardware_address_size = 6;
  protocol_address_size = 4;
  opcode = 0;
  sender_ethernet_address = 0 ∷ 0 ∷ 0 ∷ 0 ∷ 0 ∷ 0 ∷ [];
  sender_ip_address = 0;
  target_ethernet_address = 0 ∷ 0 ∷ 0 ∷ 0 ∷ 0 ∷ 0 ∷ [];
  target_ip_address = 0;
}

-- The payload as one `Buffer`, the conversion to which may throw, is parsed: as a message, or as a datagram.
unfoldable pub take_arp_payload : NetworkInterface → Option (List ℕ) → NetworkInterface × Outcome
unfolding take_arp
take_arp_payload n none = (n, thrown)
take_arp_payload n (some bytes) = take_arp n (Arp.parse blank_message bytes)

unfoldable pub take_ipv4_payload : Option (List ℕ) → Outcome × Option Ipv4Datagram
unfolding take_datagram
take_ipv4_payload none = (thrown, none)
take_ipv4_payload (some bytes) = (returned, take_datagram (Datagram.parse default_datagram bytes))

unfoldable pub recv_frame :
    NetworkInterface → EthernetFrame → NetworkInterface × Outcome × Option Ipv4Datagram
unfolding take_arp_payload take_ipv4_payload as_buffer same_bytes
recv_frame n frame =
    let payload = as_buffer frame.payload in
    let (n', outcome) = take_arp_payload n payload in
    let (outcome', dgram) = take_ipv4_payload payload in
    if same_bytes frame.header.dst ethernet_broadcast
      || same_bytes frame.header.dst n.ethernet_address
    then (if frame.header.type == type_arp
        then (n', outcome, none)
        else (if frame.header.type == type_ipv4 then (n, outcome', dgram) else (n, returned, none)))
    else (n, returned, none)

-- The loop of `tick`.
unfoldable pub unmap_expired : ℕ → Dict (EthernetAddress × ℕ) → Dict (EthernetAddress × ℕ)
unmap_expired time [] = []
unmap_expired time ((ip, (eth, t)) ∷ m) =
    let rest = unmap_expired time m in
    if ltb ((t + 30000) % u64_mod) time then rest else (ip, (eth, t)) ∷ rest

unfoldable pub tick : NetworkInterface → ℕ → NetworkInterface
unfolding unmap_expired
tick n ms =
    let time = (n.time_passed + ms) % u64_mod in
    record n { time_passed = time; ip2eth = unmap_expired time n.ip2eth }
