-- ===== src/Router/Faults.antt =====
-- libsponge/router.cc with network_interface.cc: a datagram that cannot be written stops the router.
use csed.Base.{
  ℕ, ◌≡◌, refl, ap, ◌∙◌, true, false, Option, none, some, leb, ◌==◌, get_elem?, Bool-cases, inl,
  inr, length,
}
use csed.Base.Dict.{find}
use csed.Buffer.Views.{flat}
use csed.Ipv4
use csed.Ethernet.{EthernetAddress}
use csed.Datagram
use csed.Datagram.{Ipv4Datagram, serialize_sealed}
use csed.Adapter.{Address}
use csed.NetworkInterface.{
  NetworkInterface, Outcome, returned, thrown, send_datagram, send_to, send_mapped, send_unmapped,
  after, note_request, enqueue,
}
use csed.Router.{
  AsyncNetworkInterface, Router, find_route, no_match, hop, send_out, forward, decrement,
  route_one_datagram,
}

-- Nothing is written for a version that is not 4.
serialize_wrong_version :
    (d : Ipv4Datagram) → (d.header.ver == 4) ≡ false → Datagram.serialize d ≡ none
unfolding Datagram.serialize serialize_sealed Ipv4.serialize
serialize_wrong_version d h =
    elim (Bool-cases (length (flat d.payload) == Ipv4.payload_length d.header)) [
      | inl same ↦ rw (same, h) refl
      | inr other ↦ rw other refl
    ]

after-thrown :
    (p : NetworkInterface × Outcome) (f : NetworkInterface → NetworkInterface × Outcome)
    → ((n : NetworkInterface) → (f n).1 ≡ thrown)
    → (after p f).1 ≡ thrown
unfolding after
after-thrown (n, returned) f h = h n
after-thrown (n, thrown) f h = refl

send_to-none :
    (n : NetworkInterface) (ip : ℕ) (m : Option (EthernetAddress × ℕ))
    → (send_to n ip none m).1 ≡ thrown
unfolding send_to send_mapped send_unmapped enqueue
send_to-none n ip (some (eth, t)) = refl
send_to-none n ip none =
    after-thrown _ (λ k. enqueue (note_request k ip (find ip n.not_mapped_ip_address)) ip none)
      (λ k. refl)

send_out-thrown :
    (r : Router) (i : ℕ) (n : Option AsyncNetworkInterface) (d : Ipv4Datagram) (a : Address)
    → (d.header.ver == 4) ≡ false
    → (send_out r i n d a).1 ≡ thrown
unfolding send_out send_datagram
send_out-thrown r i none d a h = refl
send_out-thrown r i (some n) d a h =
    ap (λ b. (send_to n.interface a.ip b (find a.ip n.interface.ip2eth)).1)
      (serialize_wrong_version d h)
    ∙ send_to-none n.interface a.ip (find a.ip n.interface.ip2eth)

-- A datagram whose version is not 4, with a time to live and a route, makes the router throw: `serialize`
-- does, and nothing catches it.
pub wrong_version_throws :
    (r : Router) (d : Ipv4Datagram)
    → (d.header.ver == 4) ≡ false
    → leb d.header.ttl 1 ≡ false
    → (find_route d.header.dst no_match r.routing_table).is_matched ≡ true
    → (route_one_datagram r d).2 ≡ thrown
unfolding route_one_datagram forward decrement
wrong_version_throws r d v t m =
    let e = find_route d.header.dst no_match r.routing_table in
    rw (t, m)
      (send_out-thrown r e.interface_num (get_elem? r.interfaces e.interface_num) (decrement d)
        (hop e.next_hop d.header.dst) (unfold decrement in v))
