-- ===== src/Router/Examples.antt =====
-- Runs of libsponge/router.cc.
use csed.Base.{
  ℕ, zero, suc, arith, ◌+◌, ◌<◌, ◌≡◌, refl, true, false, some, none, List, [], ◌∷◌, ◌==◌, length,
}
use csed.Parser
use csed.Parser.{no_error}
use csed.Ipv4
use csed.Datagram
use csed.Datagram.{Ipv4Datagram}
use csed.NetworkInterface
use csed.NetworkInterface.{NetworkInterface, returned, thrown}
use csed.Router.{
  RouteInformation, Router, no_match, find_route, decrement, route_one_datagram, queue, drain,
  route,
}
use csed.Router.Longest.{Found, find_route-Found}
use csed.Router.Loops.{drain_lem}
use csed.Router.Returns.{IsReady, AllWritable, route_returns}
use csed.Router.Faults.{wrong_version_throws}

-- A default route, one of 8 bits, and one of 16 bits, twice.
abbrev table : List RouteInformation
table =
    record {
      route_prefix = 0;
      prefix_length = 0;
      next_hop = some (record { ip = 0x0a00_0002; port = 0 });
      interface_num = 0;
    }
    ∷ record { route_prefix = 0x0a01_0000; prefix_length = 16; next_hop = none; interface_num = 1 }
    ∷ record { route_prefix = 0x0a00_0000; prefix_length = 8; next_hop = none; interface_num = 0 }
    ∷ record { route_prefix = 0x0a01_0000; prefix_length = 16; next_hop = none; interface_num = 0 }
    ∷ []

find_route-Found_example : Found 0x0a01_0203 table (find_route 0x0a01_0203 no_match table)
find_route-Found_example = find_route-Found 0x0a01_0203 table

-- The last of the two.
takes_the_last :
    find_route 0x0a01_0203 no_match table
    ≡ record { is_matched = true; matched_length = 16; interface_num = 0; next_hop = none }
unfolding find_route no_match
takes_the_last = refl

abbrev datagram : Ipv4Datagram
unfolding Ipv4.default_header
datagram = record {
  header = record (Ipv4.default_header) { len = 22; src = 0x0a00_0001; dst = 0x0a01_0203 };
  payload = (5 ∷ 6 ∷ []) ∷ [];
}

abbrev port : NetworkInterface
unfolding NetworkInterface.new
port =
    record (NetworkInterface.new (2 ∷ 0 ∷ 0 ∷ 0 ∷ 0 ∷ 1 ∷ [])
      (record { ip = 0x0a00_0001; port = 0 })) {
        ip2eth = (0x0a01_0203, (2 ∷ 0 ∷ 0 ∷ 0 ∷ 0 ∷ 2 ∷ [], 0)) ∷ [];
      }

-- Two datagrams in a queue, the second of which has no time left.
abbrev router : Router
unfolding datagram port
router = record {
  interfaces =
      record { interface = port; datagrams_out = [] }
      ∷ record {
        interface = port;
        datagrams_out =
            datagram ∷ record datagram { header = record (datagram.header) { ttl = 1 } } ∷ [];
      }
      ∷ [];
  routing_table = table;
}

drain_lem_example :
    (drain (length (queue router 1) + 3) 1 router ≡ drain (length (queue router 1)) 1 router)
    × ((drain (length (queue router 1)) 1 router).1 ≡ returned
        → queue (drain (length (queue router 1)) 1 router).0 1 ≡ [])
    × ((j : ℕ)
        → (j == 1) ≡ false
        → queue (drain (length (queue router 1)) 1 router).0 j ≡ queue router j)
drain_lem_example = drain_lem 3 1 router

router-IsReady : IsReady router
unfolding router datagram port queue Datagram.serialize Ipv4.payload_length Ipv4.serialize
    Ipv4.default_header decrement
router-IsReady = record {
  routes = (omega arith, (omega arith, (omega arith, (omega arith, tt))));
  writable = writable;
}
  where
    writable : (j : ℕ) → AllWritable (queue router j)
    writable zero = tt
    writable (suc zero) = (refl, (refl, tt))
    writable (suc (suc j)) = tt

route_returns_example :
    ((route router).1 ≡ returned)
    × (length (route router).0.interfaces ≡ length router.interfaces)
    × ((j : ℕ) → j < length router.interfaces → queue (route router).0 j ≡ [])
route_returns_example = route_returns router router-IsReady

-- The version 5 in the first byte, and in the datagram that is read.
abbrev version_5 : Ipv4Datagram
unfolding datagram
version_5 = record datagram { header = record (datagram.header) { ver = 5 } }

wrong_version_throws_example : (route_one_datagram router version_5).2 ≡ thrown
wrong_version_throws_example =
    wrong_version_throws router version_5 (unfold version_5 in refl)
      (unfold version_5 datagram Ipv4.default_header in refl)
      (unfold version_5 datagram router find_route no_match Ipv4.default_header in refl)

-- A frame may bring it.
version_5_is_read :
    Datagram.parse datagram (
      0x55 ∷ 0 ∷ 0 ∷ 22 ∷ 0 ∷ 0 ∷ 0x40 ∷ 0 ∷ 128 ∷ 6 ∷ 0 ∷ 0 ∷ 10 ∷ 0 ∷ 0 ∷ 1 ∷ 10 ∷ 1 ∷ 2 ∷ 3 ∷ 5
      ∷ 6 ∷ [])
    ≡ (no_error, version_5)
unfolding Datagram.parse version_5 datagram Ipv4.default_header Ipv4.payload_length Ipv4.parse
    Parser.◌>>=◌ Parser.u8 Parser.u16 Parser.u32
version_5_is_read = refl
