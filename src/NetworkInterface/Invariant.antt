-- ===== src/NetworkInterface/Invariant.antt =====
-- libsponge/network_interface.cc: the three maps of an interface, over all its calls.
use csed.Base.{
  ℕ, ◌+◌, ◌%◌, ◌≡◌, refl, sym, subst, ap, ◌∙◌, Bool, true, false, ◌&&◌, ◌||◌, Option, none, some,
  List, [], ◌∷◌, arith, ltb, ◌==◌, if◌then◌else◌, u64_mod, Bool-cases, inl, inr,
}
use csed.Base.Dict.{Dict, find, put, known}
use csed.Buffer.Views.{as_buffer}
use csed.Parser.{ParseResult, is_error}
use csed.Ethernet.{EthernetAddress, EthernetFrame}
use csed.Arp
use csed.Arp.{ArpMessage, supported, opcode_request, type_ipv4}
use csed.Arp.Laws.{serialize-supported}
use csed.Datagram
use csed.Datagram.{Ipv4Datagram}
use csed.Adapter.{Address}
use csed.NetworkInterface.{
  NetworkInterface, returned, ethernet_broadcast, type_arp, same_bytes, frame_to, push_frame,
  request_message, reply_message, send_ipv4_frame, send_arp_request, send_arp_reply, push_arp,
  after, note_request, enqueue, request_due, send_unmapped, send_to, send_mapped, send_datagram,
  send_queue, send_not_sent_datagrams, forget, learn, take_arp, take_arp_payload, recv_frame,
  blank_message, unmap_expired, tick, new,
}
use csed.NetworkInterface.Maps.{Sound, first-Sound, again-Sound, flush-Sound, learn-Sound}
use csed.NetworkInterface.Receive.{send_all_lem}

abbrev pub IsValid : NetworkInterface → Type 0
IsValid n = Sound n.ip2eth n.not_mapped_ip_address n.not_sent_dgrams

pub data Step : NetworkInterface → NetworkInterface → Type 0 where
  sends : (n : NetworkInterface) (d : Ipv4Datagram) (a : Address) → Step n (send_datagram n d a).0
  receives : (n : NetworkInterface) (f : EthernetFrame) → Step n (recv_frame n f).0
  ticks : (n : NetworkInterface) (ms : ℕ) → Step n (tick n ms)
  drains :
      (n : NetworkInterface) (left : List EthernetFrame) → Step n (record n { frames_out = left })

pub data Reachable : NetworkInterface → Type 0 where
  starts : (eth : EthernetAddress) (ip : Address) → Reachable (new eth ip)
  steps : (n m : NetworkInterface) → Reachable n → Step n m → Reachable m

new-IsValid : (eth : EthernetAddress) (ip : Address) → IsValid (new eth ip)
unfolding new
new-IsValid eth ip = record { paired = λ i. refl; no_wait = λ i h. refl }

-- A request is noted, then a datagram waits (or its queue is made).
enqueue-IsValid :
    (n : NetworkInterface) (ip : ℕ) (bytes : Option (List (List ℕ))) (t : Option ℕ)
    → IsValid n
    → find ip n.not_mapped_ip_address ≡ t
    → find ip n.ip2eth ≡ none
    → IsValid (enqueue (note_request n ip t) ip bytes).0
unfolding enqueue note_request
enqueue-IsValid n ip none none v f u = first-Sound _ _ _ ip _ _ v u
enqueue-IsValid n ip none (some s) v f u = again-Sound _ _ _ ip s _ v f u
enqueue-IsValid n ip (some x) none v f u = first-Sound _ _ _ ip _ _ v u
enqueue-IsValid n ip (some x) (some s) v f u = again-Sound _ _ _ ip s _ v f u

-- With a request or without, and whether it throws or not.
asked-IsValid :
    (n : NetworkInterface) (ip : ℕ) (bytes : Option (List (List ℕ))) (request : Option (List ℕ))
    (due : Bool)
    → IsValid n
    → find ip n.ip2eth ≡ none
    → IsValid
        (after
          (if due then push_arp n ethernet_broadcast request else (n, returned))
          (λ k. enqueue (note_request k ip (find ip n.not_mapped_ip_address)) ip bytes)).0
unfolding after push_arp push_frame
asked-IsValid n ip bytes request false v u = enqueue-IsValid n ip bytes _ v refl u
asked-IsValid n ip bytes none true v u = v
asked-IsValid n ip bytes (some x) true v u =
    enqueue-IsValid (push_frame n (frame_to n ethernet_broadcast type_arp (x ∷ []))) ip bytes _ v
      refl u

send_to-IsValid :
    (n : NetworkInterface) (ip : ℕ) (bytes : Option (List (List ℕ)))
    (m : Option (EthernetAddress × ℕ))
    → IsValid n
    → find ip n.ip2eth ≡ m
    → IsValid (send_to n ip bytes m).0
unfolding send_to send_mapped send_unmapped send_arp_request send_ipv4_frame push_frame
send_to-IsValid n ip none (some (eth, t)) v u = v
send_to-IsValid n ip (some x) (some (eth, t)) v u = v
send_to-IsValid n ip bytes none v u =
    asked-IsValid n ip bytes (Arp.serialize (request_message n ip))
      (request_due n (find ip n.not_mapped_ip_address)) v u

-- After the answer, if there is one, the queue is sent.
abbrev learnt : NetworkInterface → ℕ → EthernetAddress × ℕ → List EthernetFrame → NetworkInterface
learnt n ip m frames = record n { ip2eth = put ip m n.ip2eth; frames_out = frames }

send_queue-IsValid :
    (n : NetworkInterface) (ip : ℕ) (m : EthernetAddress × ℕ) (eth : EthernetAddress)
    (frames : List EthernetFrame) (q : Option (List (List (List ℕ))))
    → IsValid n
    → find ip n.not_sent_dgrams ≡ q
    → IsValid (send_queue (learnt n ip m frames) ip eth q)
unfolding send_queue forget
send_queue-IsValid n ip m eth frames none v f = learn-Sound _ _ _ ip m v f
send_queue-IsValid n ip m eth frames (some queue) v f =
    subst (λ k. IsValid (forget k ip)) (sym (send_all_lem (learnt n ip m frames) eth queue))
      (flush-Sound n.ip2eth n.not_mapped_ip_address n.not_sent_dgrams ip m v)

answered-IsValid :
    (n : NetworkInterface) (ip : ℕ) (eth : EthernetAddress) (asked : Bool) (reply : Option (List ℕ))
    → IsValid n
    → known reply ≡ true
    → IsValid
        (after
          (if asked then push_arp (learn n ip eth) eth reply else (learn n ip eth, returned))
          (λ k. (send_not_sent_datagrams k ip eth, returned))).0
unfolding after push_arp push_frame learn send_not_sent_datagrams
answered-IsValid n ip eth false reply v h = send_queue-IsValid n ip _ eth _ _ v refl
answered-IsValid n ip eth true none v h = absurd (ground (arith, h))
answered-IsValid n ip eth true (some x) v h = send_queue-IsValid n ip _ eth _ _ v refl

take_arp-IsValid :
    (n : NetworkInterface) (r : ParseResult × ArpMessage) → IsValid n → IsValid (take_arp n r).0
unfolding take_arp send_arp_reply learn
take_arp-IsValid n (result, m) v =
    let ip = m.sender_ip_address in
    let eth = m.sender_ethernet_address in
    let answered =
      answered-IsValid n ip eth
        ((m.opcode == opcode_request) && (m.target_ip_address == n.ip_address.ip))
        (Arp.serialize (reply_message (learn n ip eth) ip eth)) v
        (serialize-supported (reply_message (learn n ip eth) ip eth)
          (unfold supported reply_message in refl)) in
    elim (Bool-cases (is_error result)) [ inl bad ↦ rw bad v | inr good ↦ rw good answered ]

take_arp_payload-IsValid :
    (n : NetworkInterface) (p : Option (List ℕ)) → IsValid n → IsValid (take_arp_payload n p).0
unfolding take_arp_payload
take_arp_payload-IsValid n none v = v
take_arp_payload-IsValid n (some bytes) v = take_arp-IsValid n (Arp.parse blank_message bytes) v

recv_frame-IsValid :
    (n : NetworkInterface) (f : EthernetFrame) → IsValid n → IsValid (recv_frame n f).0
unfolding recv_frame
recv_frame-IsValid n f v =
    let taken = take_arp_payload-IsValid n (as_buffer f.payload) v in
    let mine =
      same_bytes f.header.dst ethernet_broadcast || same_bytes f.header.dst n.ethernet_address in
    elim (Bool-cases mine) [
      | inl here ↦ elim (Bool-cases (f.header.type == type_arp)) [
        | inl arp ↦ rw (here, arp) taken
        | inr other ↦ elim (Bool-cases (f.header.type == type_ipv4)) [
          | inl ipv4 ↦ rw (here, other, ipv4) v
          | inr neither ↦ rw (here, other, neither) v
        ]
      ]
      | inr elsewhere ↦ rw elsewhere v
    ]

left-cons :
    (old : Bool) (ip j : ℕ) (p : EthernetAddress × ℕ) (rest m : Dict (EthernetAddress × ℕ))
    → (known (find ip rest) ≡ true → known (find ip m) ≡ true)
    → known (find ip (if old then rest else (j, p) ∷ rest)) ≡ true
    → known (find ip ((j, p) ∷ m)) ≡ true
left-cons old ip j p rest m ih h = elim (Bool-cases (ip == j)) [
  | inl here ↦ rw here refl
  | inr there ↦ rw there (ih (left old there h))
]
  where
    left :
        (o : Bool)
        → (ip == j) ≡ false
        → known (find ip (if o then rest else (j, p) ∷ rest)) ≡ true
        → known (find ip rest) ≡ true
    left true there h = h
    left false there h = sym (ap (λ b. known (if b then some p else find ip rest)) there) ∙ h

left-known :
    (time ip : ℕ) (m : Dict (EthernetAddress × ℕ))
    → known (find ip (unmap_expired time m)) ≡ true
    → known (find ip m) ≡ true
unfolding unmap_expired
left-known time ip [] h = h
left-known time ip ((j, (eth, t)) ∷ m) h =
    left-cons (ltb ((t + 30000) % u64_mod) time) ip j (eth, t) (unmap_expired time m) m
      (left-known time ip m) h

step-IsValid : (n m : NetworkInterface) → Step n m → IsValid n → IsValid m
unfolding send_datagram tick
step-IsValid n _ (sends _ d a) v =
    send_to-IsValid n a.ip (Datagram.serialize d) (find a.ip n.ip2eth) v refl
step-IsValid n _ (receives _ f) v = recv_frame-IsValid n f v
step-IsValid n _ (ticks _ ms) v = record {
  paired = v.paired;
  no_wait = λ i h. v.no_wait i (left-known ((n.time_passed + ms) % u64_mod) i n.ip2eth h);
}
step-IsValid n _ (drains _ left) v = v

-- Of an interface that any calls, in any order, have made: an address has a queue exactly if a request is
-- noted for it, and nothing waits for an address that is mapped.
pub Reachable-IsValid : (n : NetworkInterface) → Reachable n → IsValid n
Reachable-IsValid _ (starts eth ip) = new-IsValid eth ip
Reachable-IsValid _ (steps n m r s) = step-IsValid n m s (Reachable-IsValid n r)
