-- ===== src/Router/Queues.antt =====
-- `Router::route` of libsponge/router.cc: its loops empty the queues.
use csed.Base.{
  ℕ, zero, suc, ◌≡◌, refl, sym, subst, ap, ◌∙◌, false, not, Option, none, some, List, [], ◌∷◌,
  arith, leb, ◌==◌, if◌then◌else◌, Bool-cases, inl, inr, length, set, get_elem?, length-set,
}
use mathlib.Core.Option.{none-ne-some}
use csed.Datagram.{Ipv4Datagram}
use csed.Adapter.{Address}
use csed.NetworkInterface.{returned, send_datagram}
use csed.Router.{
  AsyncNetworkInterface, Router, Match, find_route, no_match, hop, send_out, forward, decrement,
  route_one_datagram, queue_of, queue, put_queue,
}

-- Lists of interfaces in which one is replaced.
get-set_self :
    {A : Type 0}
    → (xs : List A) (i : ℕ) (a b : A) → get_elem? xs i ≡ some a
    → get_elem? (set xs i b) i ≡ some b
get-set_self [] i a b h = absurd (none-ne-some a h)
get-set_self (x ∷ xs) zero a b h = refl
get-set_self (x ∷ xs) (suc i) a b h = get-set_self xs i a b h

get-set_ne :
    {A : Type 0}
    → (xs : List A) (i j : ℕ) (b : A) → (j == i) ≡ false
    → get_elem? (set xs i b) j ≡ get_elem? xs j
get-set_ne [] i j b h = refl
get-set_ne (x ∷ xs) zero zero b h = absurd (ground (arith, h))
get-set_ne (x ∷ xs) zero (suc j) b h = refl
get-set_ne (x ∷ xs) (suc i) zero b h = refl
get-set_ne (x ∷ xs) (suc i) (suc j) b h = get-set_ne xs i j b (ground (arith, h))

-- The same queues: what sending on an interface leaves of a router.
pub record Quiet (r r' : Router) : Type 0 where
  pub queues : (j : ℕ) → queue r' j ≡ queue r j
  pub count : length r'.interfaces ≡ length r.interfaces
  pub table : r'.routing_table ≡ r.routing_table

same : (r : Router) → Quiet r r
same r = record { queues = λ j. refl; count = refl; table = refl }

send_out-Quiet :
    (r : Router) (i : ℕ) (n : Option AsyncNetworkInterface) (d : Ipv4Datagram) (a : Address)
    → get_elem? r.interfaces i ≡ n
    → Quiet r (send_out r i n d a).0
unfolding send_out queue queue_of
send_out-Quiet r i none d a h = same r
send_out-Quiet r i (some n) d a h =
    let m : AsyncNetworkInterface = record n { interface = (send_datagram n.interface d a).0 } in
    record {
      queues = λ j. elim (Bool-cases (j == i)) [
        | inl here ↦
            ap queue_of (
              ap (get_elem? (set r.interfaces i m)) {y = i} (ground (arith, here))
              ∙ get-set_self r.interfaces i n m h)
            ∙ ap queue_of (sym (ap (get_elem? r.interfaces) {y = i} (ground (arith, here)) ∙ h))
        | inr there ↦ ap queue_of (get-set_ne r.interfaces i j m there)
      ];
      count = length-set r.interfaces i m;
      table = refl;
    }

forward-Quiet : (r : Router) (d : Ipv4Datagram) (m : Match) → Quiet r (forward r d m).0
unfolding forward
forward-Quiet r d m =
    let sent =
      send_out-Quiet r m.interface_num (get_elem? r.interfaces m.interface_num) d
        (hop m.next_hop d.header.dst) refl in
    elim (Bool-cases m.is_matched) [
      | inl hit ↦
          subst
            (λ b.
              Quiet r
                (if not b
                  then (r, returned)
                  else send_out r m.interface_num (get_elem? r.interfaces m.interface_num) d
                      (hop m.next_hop d.header.dst)).0)
            (sym hit) sent
      | inr miss ↦
          subst
            (λ b.
              Quiet r
                (if not b
                  then (r, returned)
                  else send_out r m.interface_num (get_elem? r.interfaces m.interface_num) d
                      (hop m.next_hop d.header.dst)).0)
            (sym miss) (same r)
    ]

pub route_one-Quiet : (r : Router) (d : Ipv4Datagram) → Quiet r (route_one_datagram r d).0
unfolding route_one_datagram
route_one-Quiet r d =
    let sent = forward-Quiet r (decrement d) (find_route d.header.dst no_match r.routing_table) in
    elim (Bool-cases (leb d.header.ttl 1)) [ inl old ↦ rw old (same r) | inr young ↦ rw young sent ]

-- A queue is replaced.
pub put_queue-count :
    (r : Router) (i : ℕ) (n : Option AsyncNetworkInterface) (ds : List Ipv4Datagram)
    → length (put_queue r i n ds).interfaces ≡ length r.interfaces
unfolding put_queue
put_queue-count r i none ds = refl
put_queue-count r i (some n) ds = length-set r.interfaces i (record n { datagrams_out = ds })

pub put_queue-routing_table :
    (r : Router) (i : ℕ) (n : Option AsyncNetworkInterface) (ds : List Ipv4Datagram)
    → (put_queue r i n ds).routing_table ≡ r.routing_table
unfolding put_queue
put_queue-routing_table r i none ds = refl
put_queue-routing_table r i (some n) ds = refl

pub put_queue_ne :
    (r : Router) (i j : ℕ) (n : Option AsyncNetworkInterface) (ds : List Ipv4Datagram)
    → (j == i) ≡ false
    → queue (put_queue r i n ds) j ≡ queue r j
unfolding put_queue queue
put_queue_ne r i j none ds h = refl
put_queue_ne r i j (some n) ds h =
    ap queue_of (get-set_ne r.interfaces i j (record n { datagrams_out = ds }) h)

pub put_queue_self :
    (r : Router) (i : ℕ) (n : Option AsyncNetworkInterface) (d : Ipv4Datagram)
    (es ds : List Ipv4Datagram)
    → get_elem? r.interfaces i ≡ n
    → queue_of n ≡ d ∷ es
    → queue (put_queue r i n ds) i ≡ ds
unfolding put_queue queue queue_of
put_queue_self r i none d es ds h q = absurd (ground (arith, ap length q))
put_queue_self r i (some n) d es ds h q =
    ap queue_of (get-set_self r.interfaces i n (record n { datagrams_out = ds }) h)
