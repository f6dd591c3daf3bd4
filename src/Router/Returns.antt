-- ===== src/Router/Returns.antt =====
-- `Router::route` of libsponge/router.cc: when nothing is thrown.
use csed.Base.{
  ℕ, zero, suc, ◌<◌, ◌≡◌, refl, sym, subst, ap, ◌∙◌, Bool, true, false, ◌&&◌, Option, none, some,
  List, [], ◌∷◌, arith, leb, ◌==◌, if◌then◌else◌, Bool-cases, inl, inr, length, get_elem?,
}
use csed.Base.Dict.{find, known}
use csed.Ethernet.{EthernetAddress}
use csed.Arp
use csed.Arp.{supported}
use csed.Arp.Laws.{serialize-supported}
use csed.Datagram
use csed.Datagram.{Ipv4Datagram}
use csed.Adapter.{Address}
use csed.NetworkInterface
use csed.NetworkInterface.{
  NetworkInterface, Outcome, returned, thrown, ethernet_broadcast, send_datagram, send_to,
  send_mapped, send_unmapped, send_arp_request, push_arp, note_request, enqueue, request_due,
  request_message,
}
use csed.Router.{
  AsyncNetworkInterface, RouteInformation, Router, Match, matches, no_match, of_route, consider,
  find_route, hop, send_out, forward, decrement, route_one_datagram, queue, pop, finish, round,
  after, drain, route_from, route,
}
use csed.Router.Loops.{round-Popped, route_lem}

-- Sending a datagram returns, if its `serialize` does.
asked-returned :
    (n : NetworkInterface) (request : Option (List ℕ)) (due : Bool)
    (f : NetworkInterface → NetworkInterface × Outcome)
    → known request ≡ true
    → ((k : NetworkInterface) → (f k).1 ≡ returned)
    → (NetworkInterface.after
        (if due then push_arp n ethernet_broadcast request else (n, returned))
        f).1
      ≡ returned
unfolding NetworkInterface.after push_arp
asked-returned n request false f k h = h n
asked-returned n none true f k h = absurd (ground (arith, k))
asked-returned n (some x) true f k h = h _

send_to-returned :
    (n : NetworkInterface) (ip : ℕ) (bytes : Option (List (List ℕ)))
    (m : Option (EthernetAddress × ℕ))
    → known bytes ≡ true
    → (send_to n ip bytes m).1 ≡ returned
unfolding send_to send_mapped send_unmapped send_arp_request enqueue
send_to-returned n ip none m h = absurd (ground (arith, h))
send_to-returned n ip (some x) (some (eth, t)) h = refl
send_to-returned n ip (some x) none h =
    asked-returned n (Arp.serialize (request_message n ip))
      (request_due n (find ip n.not_mapped_ip_address))
      (λ k. enqueue (note_request k ip (find ip n.not_mapped_ip_address)) ip (some x))
      (serialize-supported (request_message n ip) (unfold supported request_message in refl))
      (λ k. refl)

-- The datagrams can be written once their time to live is counted down.
abbrev pub AllWritable : List Ipv4Datagram → Type 0
AllWritable [] = Unit {0}
AllWritable (d ∷ ds) = (known (Datagram.serialize (decrement d)) ≡ true) × AllWritable ds

-- The routes lead to interfaces.
abbrev pub AllLead : ℕ → List RouteInformation → Type 0
AllLead n [] = Unit {0}
AllLead n (el ∷ els) = (el.interface_num < n) × AllLead n els

pub record IsReady (r : Router) : Type 0 where
  pub routes : AllLead (length r.interfaces) r.routing_table
  pub writable : (j : ℕ) → AllWritable (queue r j)

get-known : {A : Type 0} → (xs : List A) (i : ℕ) → i < length xs → known (get_elem? xs i) ≡ true
get-known [] i h = absurd (omega (arith, h))
get-known (x ∷ xs) zero h = refl
get-known (x ∷ xs) (suc i) h = get-known xs i (omega (arith, h))

find_route-leads :
    (dst n : ℕ) (m : Match) (table : List RouteInformation)
    → AllLead n table
    → (m.is_matched ≡ true → m.interface_num < n)
    → (find_route dst m table).is_matched ≡ true
    → (find_route dst m table).interface_num < n
unfolding find_route
find_route-leads dst n m [] a h = h
find_route-leads dst n m (el ∷ els) a h =
    find_route-leads dst n (consider dst m el) els a.1
      (considered (matches dst el && leb m.matched_length el.prefix_length))
  where
    considered :
        (b : Bool)
        → (if b then of_route el else m).is_matched ≡ true
        → (if b then of_route el else m).interface_num < n
    considered true e = a.0
    considered false e = h e

send_out-returned :
    (r : Router) (i : ℕ) (n : Option AsyncNetworkInterface) (d : Ipv4Datagram) (a : Address)
    → known n ≡ true
    → known (Datagram.serialize d) ≡ true
    → (send_out r i n d a).1 ≡ returned
unfolding send_out send_datagram
send_out-returned r i none d a k h = absurd (ground (arith, k))
send_out-returned r i (some n) d a k h =
    send_to-returned n.interface a.ip (Datagram.serialize d) (find a.ip n.interface.ip2eth) h

forward-returned :
    (r : Router) (d : Ipv4Datagram) (m : Match)
    → (m.is_matched ≡ true → m.interface_num < length r.interfaces)
    → known (Datagram.serialize d) ≡ true
    → (forward r d m).1 ≡ returned
unfolding forward
forward-returned r d m l h = elim (Bool-cases m.is_matched) [
  | inl hit ↦ rw hit (
      send_out-returned r m.interface_num (get_elem? r.interfaces m.interface_num) d
        (hop m.next_hop d.header.dst) (get-known r.interfaces m.interface_num (l hit)) h)
  | inr miss ↦ rw miss refl
]

route_one-returned :
    (r : Router) (d : Ipv4Datagram)
    → AllLead (length r.interfaces) r.routing_table
    → known (Datagram.serialize (decrement d)) ≡ true
    → (route_one_datagram r d).2 ≡ returned
unfolding route_one_datagram no_match
route_one-returned r d l h =
    let sent =
      forward-returned r (decrement d) (find_route d.header.dst no_match r.routing_table)
        (find_route-leads d.header.dst (length r.interfaces) no_match r.routing_table l
          (λ e. absurd (ground (arith, e))))
        h in
    elim (Bool-cases (leb d.header.ttl 1)) [ inl old ↦ rw old refl | inr young ↦ rw young sent ]

finish-returned : (i : ℕ) (p : Router × Ipv4Datagram × Outcome) → (finish i p).1 ≡ p.2
unfolding finish
finish-returned i (r, d, returned) = refl
finish-returned i (r, d, thrown) = refl

round-returned :
    (i : ℕ) (r : Router) (q : List Ipv4Datagram)
    → AllLead (length r.interfaces) r.routing_table
    → AllWritable q
    → (round i r q).1 ≡ returned
unfolding round
round-returned i r [] l w = refl
round-returned i r (d ∷ ds) l w =
    finish-returned i (route_one_datagram r d) ∙ route_one-returned r d l w.0

pop-AllWritable : (q : List Ipv4Datagram) → AllWritable q → AllWritable (pop q)
unfolding pop
pop-AllWritable [] w = tt
pop-AllWritable (d ∷ ds) w = w.1

-- A round leaves a router that is ready.
round-IsReady : (i : ℕ) (r : Router) → IsReady r → IsReady (round i r (queue r i)).0
round-IsReady i r h =
    let p = round-Popped i r (queue r i) refl in
    let e = round-returned i r (queue r i) h.routes (h.writable i) in
    let n = (round i r (queue r i)).0 in
    record {
      routes =
          subst (λ t. AllLead (length n.interfaces) t) (sym p.table)
            (subst (λ k. AllLead k r.routing_table) (sym p.count) h.routes);
      writable = λ j. elim (Bool-cases (j == i)) [
        | inl here ↦
            subst (λ k. AllWritable (queue n k)) {x = i} (ground (arith, here))
              (subst AllWritable (sym (p.front e)) (pop-AllWritable (queue r i) (h.writable i)))
        | inr there ↦ subst AllWritable (sym (p.others j there)) (h.writable j)
      ];
    }

after-IsReady :
    (p : Router × Outcome) (f : Router → Router × Outcome)
    → p.1 ≡ returned
    → (((f p.0).1 ≡ returned) × IsReady (f p.0).0)
    → ((after p f).1 ≡ returned) × IsReady (after p f).0
unfolding after
after-IsReady (r, returned) f e h = h
after-IsReady (r, thrown) f e h = (e, absurd (ground (arith, ap went e)))
  where
    went : Outcome → ℕ
    went returned = 1
    went thrown = 0

drain-IsReady :
    (fuel i : ℕ) (r : Router)
    → IsReady r
    → ((drain fuel i r).1 ≡ returned) × IsReady (drain fuel i r).0
unfolding drain
drain-IsReady zero i r h = (refl, h)
drain-IsReady (suc fuel) i r h =
    after-IsReady (round i r (queue r i)) (drain fuel i)
      (round-returned i r (queue r i) h.routes (h.writable i))
      (drain-IsReady fuel i (round i r (queue r i)).0 (round-IsReady i r h))

route_from-IsReady :
    (n i : ℕ) (r : Router)
    → IsReady r
    → ((route_from n i r).1 ≡ returned) × IsReady (route_from n i r).0
unfolding route_from
route_from-IsReady zero i r h = (refl, h)
route_from-IsReady (suc n) i r h =
    let (e, ready) = drain-IsReady (length (queue r i)) i r h in
    after-IsReady (drain (length (queue r i)) i r) (route_from n (suc i)) e
      (route_from-IsReady n (suc i) (drain (length (queue r i)) i r).0 ready)

-- On a router whose routes lead to interfaces that it has, and whose queued datagrams can be written
-- once their time to live is counted down, `route` returns; after it all queues are empty, and the
-- interfaces are as many as before.
pub route_returns :
    (r : Router)
    → IsReady r
    → ((route r).1 ≡ returned)
      × (length (route r).0.interfaces ≡ length r.interfaces)
      × ((j : ℕ) → j < length r.interfaces → queue (route r).0 j ≡ [])
unfolding route
route_returns r h =
    let e : (route r).1 ≡ returned =
      unfold route in (route_from-IsReady (length r.interfaces) 0 r h).0 in
    let (count, empty) = route_lem r e in (e, count, empty)
