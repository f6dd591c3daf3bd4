-- ===== src/Router.antt =====
-- libsponge/router.hh and .cc. A route has at most 32 bits of prefix: beyond that the shift of the mask
-- has no defined value.
pub mod Longest
pub mod Queues
pub mod Loops
pub mod Returns
pub mod Faults
mod Examples
use csed.Base.{
  ℕ, zero, suc, ◌+◌, ◌-◌, ◌*◌, ◌/◌, ◌^◌, Bool, true, false, not, ◌&&◌, ◌||◌, Option, none, some,
  List, [], ◌∷◌, ◌++◌, leb, ◌==◌, if◌then◌else◌, length, set, get_elem?,
}
use csed.Ethernet.{EthernetFrame}
use csed.Datagram.{Ipv4Datagram}
use csed.Adapter.{Address}
use csed.NetworkInterface
use csed.NetworkInterface.{NetworkInterface, Outcome, returned, thrown, send_datagram}

pub record AsyncNetworkInterface : Type 0 where
  pub interface : NetworkInterface
  pub datagrams_out : List Ipv4Datagram

-- The datagram that a frame carried is queued.
unfoldable pub keep : List Ipv4Datagram → Option Ipv4Datagram → List Ipv4Datagram
keep queue none = queue
keep queue (some d) = queue ++ (d ∷ [])

unfoldable pub recv_frame : AsyncNetworkInterface → EthernetFrame → AsyncNetworkInterface × Outcome
unfolding keep
recv_frame a frame =
    let (n, outcome, optional_dgram) = NetworkInterface.recv_frame a.interface frame in
    (record { interface = n; datagrams_out = keep a.datagrams_out optional_dgram }, outcome)

pub record RouteInformation : Type 0 where
  pub route_prefix : ℕ
  pub prefix_length : ℕ
  pub next_hop : Option Address
  pub interface_num : ℕ

pub record Router : Type 0 where
  pub interfaces : List AsyncNetworkInterface
  pub routing_table : List RouteInformation

-- The router and the index of the interface.
unfoldable pub add_interface : Router → AsyncNetworkInterface → Router × ℕ
add_interface r a =
    let interfaces = r.interfaces ++ (a ∷ []) in
    (record r { interfaces = interfaces }, length interfaces - 1)

unfoldable pub add_route : Router → ℕ → ℕ → Option Address → ℕ → Router
add_route r route_prefix prefix_length next_hop interface_num = record r {
  routing_table =
      r.routing_table
      ++ (record {
        route_prefix = route_prefix;
        prefix_length = prefix_length;
        next_hop = next_hop;
        interface_num = interface_num;
      }
          ∷ []);
}

-- `dst & (0xFFFFFFFF << (32 - prefix_length))` keeps the high bits.
unfoldable pub matches : ℕ → RouteInformation → Bool
matches dst el =
    let rest = 2 ^ (32 - el.prefix_length) in
    (el.prefix_length == 0) || (dst / rest * rest == el.route_prefix)

-- The variables of the loop.
pub record Match : Type 0 where
  pub is_matched : Bool
  pub matched_length : ℕ
  pub interface_num : ℕ
  pub next_hop : Option Address

unfoldable pub no_match : Match
no_match = record { is_matched = false; matched_length = 0; interface_num = 0; next_hop = none }

unfoldable pub of_route : RouteInformation → Match
of_route el = record {
  is_matched = true;
  matched_length = el.prefix_length;
  interface_num = el.interface_num;
  next_hop = el.next_hop;
}

-- A round of the loop.
unfoldable pub consider : ℕ → Match → RouteInformation → Match
unfolding matches of_route
consider dst m el =
    if matches dst el && leb m.matched_length el.prefix_length then of_route el else m

unfoldable pub find_route : ℕ → Match → List RouteInformation → Match
unfolding consider
find_route dst m [] = m
find_route dst m (el ∷ els) = find_route dst (consider dst m el) els

-- Of an optional address, or the destination of the datagram (with the port 0).
unfoldable pub hop : Option Address → ℕ → Address
hop none dst = record { ip = dst; port = 0 }
hop (some a) dst = a

-- `interface(N).send_datagram(dgram, a)`: `at` throws beyond the interfaces.
unfoldable pub send_out :
    Router → ℕ → Option AsyncNetworkInterface → Ipv4Datagram → Address → Router × Outcome
send_out r i none d a = (r, thrown)
send_out r i (some n) d a =
    let (n', outcome) = send_datagram n.interface d a in
    (record r { interfaces = set r.interfaces i (record n { interface = n' }) }, outcome)

unfoldable pub forward : Router → Ipv4Datagram → Match → Router × Outcome
unfolding send_out hop
forward r d m =
    if not m.is_matched
    then (r, returned)
    else send_out r m.interface_num (get_elem? r.interfaces m.interface_num) d
        (hop m.next_hop d.header.dst)

unfoldable pub decrement : Ipv4Datagram → Ipv4Datagram
decrement d = record d { header = record (d.header) { ttl = d.header.ttl - 1 } }

-- The router and the datagram, which is changed.
unfoldable pub route_one_datagram : Router → Ipv4Datagram → Router × Ipv4Datagram × Outcome
unfolding forward decrement find_route no_match
route_one_datagram r d =
    let d' = decrement d in
    let (r', outcome) = forward r d' (find_route d.header.dst no_match r.routing_table) in
    if leb d.header.ttl 1 then (r, d, returned) else (r', d', outcome)

-- The queue of the interface `i`; beyond the interfaces there is none.
unfoldable pub queue_of : Option AsyncNetworkInterface → List Ipv4Datagram
queue_of none = []
queue_of (some n) = n.datagrams_out

unfoldable pub queue : Router → ℕ → List Ipv4Datagram
unfolding queue_of
queue r i = queue_of (get_elem? r.interfaces i)

unfoldable pub put_queue : Router → ℕ → Option AsyncNetworkInterface → List Ipv4Datagram → Router
put_queue r i none ds = r
put_queue r i (some n) ds = record r {
  interfaces = set r.interfaces i (record n { datagrams_out = ds });
}

unfoldable pub set_queue : Router → ℕ → List Ipv4Datagram → Router
unfolding put_queue
set_queue r i ds = put_queue r i (get_elem? r.interfaces i) ds

-- `queue.pop()` after a call that returned; an exception leaves the datagram, changed, in front.
unfoldable pub pop : List Ipv4Datagram → List Ipv4Datagram
pop [] = []
pop (d ∷ ds) = ds

unfoldable pub put_front : Ipv4Datagram → List Ipv4Datagram → List Ipv4Datagram
put_front d [] = []
put_front d (e ∷ ds) = d ∷ ds

unfoldable pub finish : ℕ → Router × Ipv4Datagram × Outcome → Router × Outcome
unfolding set_queue queue pop put_front
finish i (r, d, returned) = (set_queue r i (pop (queue r i)), returned)
finish i (r, d, thrown) = (set_queue r i (put_front d (queue r i)), thrown)

-- A round of the inner loop of `route`, on the queue that it finds.
unfoldable pub round : ℕ → Router → List Ipv4Datagram → Router × Outcome
unfolding finish route_one_datagram
round i r [] = (r, returned)
round i r (d ∷ ds) = finish i (route_one_datagram r d)

-- What goes on after a call that returned.
unfoldable pub after : Router × Outcome → (Router → Router × Outcome) → Router × Outcome
after (r, returned) next = next r
after (r, thrown) next = (r, thrown)

-- The inner loop, on fuel: the length of the queue is enough.
unfoldable pub drain : ℕ → ℕ → Router → Router × Outcome
unfolding round after queue
drain zero i r = (r, returned)
drain (suc fuel) i r = after (round i r (queue r i)) (drain fuel i)

-- The outer loop, over `n` interfaces from `i`.
unfoldable pub route_from : ℕ → ℕ → Router → Router × Outcome
unfolding drain after queue
route_from zero i r = (r, returned)
route_from (suc n) i r = after (drain (length (queue r i)) i r) (route_from n (suc i))

unfoldable pub route : Router → Router × Outcome
unfolding route_from
route r = route_from (length r.interfaces) 0 r
