-- ===== src/NetworkInterface/Receive.antt =====
-- libsponge/network_interface.cc: what `recv_frame` makes of ARP messages and datagrams.
use csed.Base.{
  ℕ, ◌≡◌, refl, sym, subst, ap, ◌∙◌, Bool, true, false, ◌&&◌, ◌||◌, Option, none, some, List, [],
  ◌∷◌, ◌++◌, append-nil, append_assoc, map, arith, ◌==◌, if◌then◌else◌,
}
use csed.Base.Dict.{find, put, find-erase_self}
use csed.Buffer.Views.{as_buffer}
use csed.Parser.{no_error, is_error}
use csed.Ethernet.{EthernetAddress, EthernetFrame}
use csed.Arp.{ArpMessage, supported, opcode_request, type_ipv4}
use csed.Arp.Laws as ArpLaws
use csed.Datagram.{Ipv4Datagram}
use csed.NetworkInterface.{
  NetworkInterface, Outcome, returned, ethernet_broadcast, type_arp, same_bytes, frame_to,
  push_frame, reply_message, send_ipv4_frame, send_arp_reply, push_arp, after, queue_of, send_all,
  send_queue, send_not_sent_datagrams, forget, learn, take_arp, take_arp_payload, take_ipv4_payload,
  recv_frame, blank_message,
}
use csed.NetworkInterface.Laws.{reply_frame, IsAddressed}

pub reply_message-IsWord :
    (n : NetworkInterface) (m : ArpMessage)
    → IsAddressed n
    → ArpLaws.IsWord m
    → ArpLaws.IsWord (reply_message n m.sender_ip_address m.sender_ethernet_address)
unfolding reply_message
reply_message-IsWord n m a w = record {
  hardware_type = omega arith;
  protocol_type = omega arith;
  hardware_address_size = omega arith;
  protocol_address_size = omega arith;
  opcode = omega arith;
  sender_length = a.ethernet_length;
  sender_bytes = a.ethernet_bytes;
  sender_ip_address = a.ip;
  target_length = w.sender_length;
  target_bytes = w.sender_bytes;
  target_ip_address = w.sender_ip_address;
}

send_arp_reply_lem :
    (n : NetworkInterface) (m : ArpMessage)
    → IsAddressed n
    → ArpLaws.IsWord m
    → send_arp_reply n m.sender_ip_address m.sender_ethernet_address
      ≡ (push_frame n (reply_frame n m.sender_ip_address m.sender_ethernet_address), returned)
unfolding send_arp_reply push_arp
send_arp_reply_lem n m a w = ap (push_arp n m.sender_ethernet_address) (
    ArpLaws.serialize_lem (reply_message n m.sender_ip_address m.sender_ethernet_address)
      (reply_message-IsWord n m a w) (unfold reply_message supported in refl))

pub send_all_lem :
    (n : NetworkInterface) (eth : EthernetAddress) (queue : List (List (List ℕ)))
    → send_all n eth queue
      ≡ record n { frames_out = n.frames_out ++ map (frame_to n eth type_ipv4) queue }
unfolding send_all send_ipv4_frame push_frame frame_to
send_all_lem n eth [] = ap (λ fs. record n { frames_out = fs }) (sym (append-nil n.frames_out))
send_all_lem n eth (bytes ∷ rest) =
    send_all_lem (send_ipv4_frame n eth bytes) eth rest
    ∙ ap (λ fs. record n { frames_out = fs })
        (append_assoc n.frames_out (frame_to n eth type_ipv4 bytes ∷ [])
          (map (frame_to n eth type_ipv4) rest))

-- The frames that answer a message.
abbrev pub answers : NetworkInterface → ArpMessage → List EthernetFrame
answers n m =
    if (m.opcode == opcode_request) && (m.target_ip_address == n.ip_address.ip)
    then reply_frame n m.sender_ip_address m.sender_ethernet_address ∷ []
    else []

-- The interface that learnt an address, sent `frames` and no longer waits.
abbrev flushed : NetworkInterface → ArpMessage → List EthernetFrame → NetworkInterface
flushed n m frames = record n {
  ip2eth = put m.sender_ip_address (m.sender_ethernet_address, n.time_passed) n.ip2eth;
  frames_out = n.frames_out ++ frames;
}

-- What the taking of a message does.
pub record Taken (n n' : NetworkInterface) (m : ArpMessage) : Type 0 where
  pub frames_out :
      n'.frames_out
      ≡ n.frames_out
        ++ (answers n m
            ++ map
                (frame_to n m.sender_ethernet_address type_ipv4)
                (queue_of (find m.sender_ip_address n.not_sent_dgrams)))
  pub ip2eth :
      n'.ip2eth ≡ put m.sender_ip_address (m.sender_ethernet_address, n.time_passed) n.ip2eth
  pub no_queue : find m.sender_ip_address n'.not_sent_dgrams ≡ none
  pub ethernet_address : n'.ethernet_address ≡ n.ethernet_address
  pub ip_address : n'.ip_address ≡ n.ip_address

send_queue-Taken :
    (n : NetworkInterface) (m : ArpMessage) (q : Option (List (List (List ℕ))))
    → find m.sender_ip_address n.not_sent_dgrams ≡ q
    → Taken n
        (send_queue (flushed n m (answers n m)) m.sender_ip_address m.sender_ethernet_address q)
        m
unfolding send_queue queue_of forget frame_to
send_queue-Taken n m none e = record {
  frames_out =
      ap (λ fs. n.frames_out ++ fs) (sym (append-nil (answers n m)))
      ∙ ap
          (λ q.
            n.frames_out
            ++ (answers n m ++ map (frame_to n m.sender_ethernet_address type_ipv4) (queue_of q)))
          (sym e);
  ip2eth = refl;
  no_queue = e;
  ethernet_address = refl;
  ip_address = refl;
}
send_queue-Taken n m (some queue) e =
    let frames = map (frame_to n m.sender_ethernet_address type_ipv4) queue in
    subst (λ k. Taken n (forget k m.sender_ip_address) m)
      (sym (send_all_lem (flushed n m (answers n m)) m.sender_ethernet_address queue))
      (record {
        frames_out =
            append_assoc n.frames_out (answers n m) frames
            ∙ ap
                (λ q.
                  n.frames_out
                  ++ (answers n m
                      ++ map (frame_to n m.sender_ethernet_address type_ipv4) (queue_of q)))
                (sym e);
        ip2eth = refl;
        no_queue = find-erase_self m.sender_ip_address n.not_sent_dgrams;
        ethernet_address = refl;
        ip_address = refl;
      })

-- The answer, where there is one to give.
answer_lem :
    (n : NetworkInterface) (m : ArpMessage) (asked : Bool)
    → IsAddressed n
    → ArpLaws.IsWord m
    → (if asked
        then send_arp_reply
            (learn n m.sender_ip_address m.sender_ethernet_address)
            m.sender_ip_address
            m.sender_ethernet_address
        else (learn n m.sender_ip_address m.sender_ethernet_address, returned))
      ≡ (
        flushed n m (
            if asked then reply_frame n m.sender_ip_address m.sender_ethernet_address ∷ [] else []),
        returned,
      )
unfolding learn push_frame frame_to reply_message
answer_lem n m true a w =
    send_arp_reply_lem (learn n m.sender_ip_address m.sender_ethernet_address) m
      (record { ip = a.ip; ethernet_length = a.ethernet_length; ethernet_bytes = a.ethernet_bytes })
      w
answer_lem n m false a w =
    ap (λ fs. (record (flushed n m []) { frames_out = fs }, returned))
      (sym (append-nil n.frames_out))

take_arp_lem :
    (n : NetworkInterface) (m : ArpMessage)
    → IsAddressed n
    → ArpLaws.IsWord m
    → take_arp n (no_error, m) ≡ (
      send_not_sent_datagrams
          (flushed n m (answers n m))
          m.sender_ip_address
          m.sender_ethernet_address,
      returned,
    )
unfolding take_arp is_error after learn
take_arp_lem n m a w =
    ap
      (λ r.
        after r (λ k.
          (send_not_sent_datagrams k m.sender_ip_address m.sender_ethernet_address, returned)))
      (unfold learn in
        answer_lem n m ((m.opcode == opcode_request) && (m.target_ip_address == n.ip_address.ip)) a
          w)

-- Whether a frame is for the interface.
abbrev pub for_me : NetworkInterface → EthernetFrame → Bool
for_me n f =
    same_bytes f.header.dst ethernet_broadcast || same_bytes f.header.dst n.ethernet_address

pub recv_arp :
    (n : NetworkInterface) (f : EthernetFrame) (m : ArpMessage)
    → for_me n f ≡ true
    → f.header.type ≡ type_arp
    → as_buffer f.payload ≡ some (ArpLaws.wire m)
    → ArpLaws.IsWord m
    → supported m ≡ true
    → recv_frame n f ≡ (let r = take_arp n (no_error, m) in (r.0, r.1, none))
unfolding take_arp_payload
recv_arp n f m mine arp payload w ok =
    let is_arp : (f.header.type == type_arp) ≡ true = ground (arith, arp) in
    let taken : recv_frame n f
        ≡ (let k = take_arp_payload n (as_buffer f.payload) in (k.0, k.1, none)) =
      unfold recv_frame in simp (mine, is_arp) in
    taken
    ∙ ap (λ p. let k = take_arp_payload n p in (k.0, k.1, none)) payload
    ∙ ap (λ r. let k = take_arp n r in (k.0, k.1, none)) (ArpLaws.parse_lem blank_message m w ok)

-- An interface that gets a frame for it, with a supported ARP message whose fields fit their widths in
-- one buffer, learns the sender's address, answers if it is a request for its own address, and then sends all that
-- waits for the sender, in the order in which it was queued; nothing is left in that queue.
pub recv_frame-Taken :
    (n : NetworkInterface) (f : EthernetFrame) (m : ArpMessage)
    → IsAddressed n
    → for_me n f ≡ true
    → f.header.type ≡ type_arp
    → as_buffer f.payload ≡ some (ArpLaws.wire m)
    → ArpLaws.IsWord m
    → supported m ≡ true
    → Taken n (recv_frame n f).0 m × ((recv_frame n f).1 ≡ returned) × ((recv_frame n f).2 ≡ none)
unfolding send_not_sent_datagrams
recv_frame-Taken n f m a mine arp payload w ok =
    subst
      (λ (r : NetworkInterface × Outcome × Option Ipv4Datagram).
        Taken n r.0 m × (r.1 ≡ returned) × (r.2 ≡ none))
      (sym (
        recv_arp n f m mine arp payload w ok
        ∙ ap (λ (k : NetworkInterface × Outcome). (k.0, k.1, none)) (take_arp_lem n m a w)))
      (send_queue-Taken n m (find m.sender_ip_address n.not_sent_dgrams) refl, refl, refl)

pub recv_ipv4 :
    (n : NetworkInterface) (f : EthernetFrame)
    → for_me n f ≡ true
    → f.header.type ≡ type_ipv4
    → recv_frame n f ≡ (let k = take_ipv4_payload (as_buffer f.payload) in (n, k.0, k.1))
unfolding recv_frame
recv_ipv4 n f mine ipv4 =
    let not_arp : (f.header.type == type_arp) ≡ false = ground (arith, ipv4) in
    let is_ipv4 : (f.header.type == type_ipv4) ≡ true = ground (arith, ipv4) in
    simp (mine, not_arp, is_ipv4)

pub same_bytes_refl : (bs : List ℕ) → same_bytes bs bs ≡ true
unfolding same_bytes
same_bytes_refl [] = refl
same_bytes_refl (b ∷ bs) = ground (arith, same_bytes_refl bs)
