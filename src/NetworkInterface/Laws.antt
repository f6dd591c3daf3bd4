-- ===== src/NetworkInterface/Laws.antt =====
-- libsponge/network_interface.cc: what the sending and the taking of frames do.
use csed.Base.{
  ℕ, ◌^◌, ◌<◌, ◌≡◌, refl, ap, ◌∙◌, Option, none, some, List, [], ◌∷◌, ◌++◌, arith, if◌then◌else◌,
  length,
}
use csed.Base.Dict.{find, put}
use csed.Ethernet.{EthernetAddress, EthernetFrame}
use csed.Ethernet.Laws.{AllByte}
use csed.Arp.{supported}
use csed.Arp.Laws as ArpLaws
use csed.Ipv4.Checksums.{head}
use csed.Datagram
use csed.Datagram.{Ipv4Datagram}
use csed.Datagram.Roundtrip.{IsWhole, sent_header, serialize_lem}
use csed.Adapter.{Address}
use csed.NetworkInterface.{
  NetworkInterface, Outcome, returned, ethernet_broadcast, type_arp, frame_to, push_frame,
  request_message, reply_message, send_arp_request, push_arp, after, note_request, enqueue,
  request_due, queue_of, send_unmapped, send_to, send_datagram,
}

-- The frames of a request and of a reply.
abbrev pub request_frame : NetworkInterface → ℕ → EthernetFrame
request_frame n ip =
    frame_to n ethernet_broadcast type_arp (ArpLaws.wire (request_message n ip) ∷ [])

abbrev pub reply_frame : NetworkInterface → ℕ → EthernetAddress → EthernetFrame
reply_frame n ip eth = frame_to n eth type_arp (ArpLaws.wire (reply_message n ip eth) ∷ [])

-- The buffers of a datagram as it is sent.
abbrev pub wire : Ipv4Datagram → List (List ℕ)
wire d = head (sent_header d.header) ∷ d.payload

abbrev pub AllWhole : List Ipv4Datagram → Type 0
AllWhole [] = Unit {0}
AllWhole (d ∷ ds) = IsWhole d × AllWhole ds

-- An interface whose addresses are addresses.
pub record IsAddressed (n : NetworkInterface) : Type 0 where
  pub ip : n.ip_address.ip < 2 ^ 32
  pub ethernet_length : length n.ethernet_address ≡ 6
  pub ethernet_bytes : AllByte n.ethernet_address

pub request_message-IsWord :
    (n : NetworkInterface) (ip : ℕ)
    → IsAddressed n
    → ip < 2 ^ 32
    → ArpLaws.IsWord (request_message n ip)
unfolding request_message
request_message-IsWord n ip a h = record {
  hardware_type = omega arith;
  protocol_type = omega arith;
  hardware_address_size = omega arith;
  protocol_address_size = omega arith;
  opcode = omega arith;
  sender_length = a.ethernet_length;
  sender_bytes = a.ethernet_bytes;
  sender_ip_address = a.ip;
  target_length = refl;
  target_bytes =
      (omega arith, (omega arith, (omega arith, (omega arith, (omega arith, (omega arith, tt))))));
  target_ip_address = h;
}

pub send_arp_request_lem :
    (n : NetworkInterface) (ip : ℕ)
    → IsAddressed n
    → ip < 2 ^ 32
    → send_arp_request n ip ≡ (push_frame n (request_frame n ip), returned)
unfolding send_arp_request push_arp
send_arp_request_lem n ip a h = ap (push_arp n ethernet_broadcast) (
    ArpLaws.serialize_lem (request_message n ip) (request_message-IsWord n ip a h)
      (unfold request_message supported in refl))

-- Those that wait for an address with a request sent just now.
unfoldable pub waiting : NetworkInterface → ℕ → List (List (List ℕ)) → NetworkInterface
waiting n ip queue = record n {
  frames_out = n.frames_out ++ (request_frame n ip ∷ []);
  not_mapped_ip_address = put ip n.time_passed n.not_mapped_ip_address;
  not_sent_dgrams = put ip queue n.not_sent_dgrams;
}

-- Nothing is known of an address, and nothing waits for it.
pub record IsUnknown (n : NetworkInterface) (ip : ℕ) : Type 0 where
  pub unmapped : find ip n.ip2eth ≡ none
  pub not_asked : find ip n.not_mapped_ip_address ≡ none
  pub no_queue : find ip n.not_sent_dgrams ≡ none

-- `send_unmapped` as a function of what the maps hold.
unmapped_steps :
    NetworkInterface
    → ℕ
    → List (List ℕ)
    → Option ℕ
    → NetworkInterface × Outcome
    → NetworkInterface × Outcome
unmapped_steps n ip bytes t asked =
    after asked (λ n'. enqueue (note_request n' ip t) ip (some bytes))

pub send_first :
    (n : NetworkInterface) (ip : ℕ) (bytes : List (List ℕ))
    → IsAddressed n
    → ip < 2 ^ 32
    → IsUnknown n ip
    → send_unmapped n ip (some bytes) ≡ (waiting n ip (bytes ∷ []), returned)
unfolding send_unmapped unmapped_steps request_due after enqueue note_request queue_of push_frame
    waiting
send_first n ip bytes a h u =
    ap
      (λ t.
        unmapped_steps n ip bytes t
          (if request_due n t then send_arp_request n ip else (n, returned)))
      u.not_asked
    ∙ ap (unmapped_steps n ip bytes none) (send_arp_request_lem n ip a h)
    ∙ ap (λ q. (waiting n ip (queue_of q ++ (bytes ∷ [])), returned)) u.no_queue

-- Datagrams sent in turn, as long as none throws.
abbrev pub send_each : NetworkInterface → List Ipv4Datagram → Address → NetworkInterface × Outcome
send_each n [] a = (n, returned)
send_each n (d ∷ ds) a = after (send_datagram n d a) (λ m. send_each m ds a)

pub send_datagram_unmapped :
    (n : NetworkInterface) (d : Ipv4Datagram) (a : Address)
    → IsWhole d
    → find a.ip n.ip2eth ≡ none
    → send_datagram n d a ≡ send_unmapped n a.ip (some (wire d))
unfolding send_datagram send_to
send_datagram_unmapped n d a w h =
    ap (send_to n a.ip (Datagram.serialize d)) h
    ∙ ap (λ b. send_unmapped n a.ip b) (serialize_lem d w)
