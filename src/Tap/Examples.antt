-- ===== src/Tap/Examples.antt =====
-- Runs of libsponge/tcp_helpers/tuntap_adapter.cc.
use csed.Base.{◌≡◌, refl, arith, true, false, some, [], ◌∷◌, ◌++◌}
use csed.Buffer.Views.{flat}
use csed.Ethernet.{serialize_frame}
use csed.Segment.{TcpSegment, default_header}
use csed.Adapter.{FdAdapterBase}
use csed.Adapter.OverIp.{with_ports}
use csed.Adapter.Laws as AdapterLaws
use csed.NetworkInterface
use csed.NetworkInterface.{NetworkInterface, Outcome, returned}
use csed.Tap.{TapAdapter, read, write}
use csed.Tap.Laws.{IsLinked, carried, read-write}

abbrev client_base : FdAdapterBase
client_base = record {
  cfg = record {
    source = record { ip = 0x0a00_0001; port = 5000 };
    destination = record { ip = 0x0a00_0002; port = 80 };
    loss_rate_dn = 0;
    loss_rate_up = 0;
  };
  listen = false;
}

abbrev client : TapAdapter
unfolding NetworkInterface.new
client = record {
  base = client_base;
  interface =
      record (NetworkInterface.new (2 ∷ 0 ∷ 0 ∷ 0 ∷ 0 ∷ 1 ∷ [])
        (record { ip = 0x0a00_0001; port = 0 })) {
          ip2eth = (0x0a00_0002, (2 ∷ 0 ∷ 0 ∷ 0 ∷ 0 ∷ 2 ∷ [], 7)) ∷ [];
        };
  next_hop = record { ip = 0x0a00_0002; port = 0 };
  written = [];
}

abbrev server : TapAdapter
unfolding NetworkInterface.new
server = record {
  base = record {
    cfg = record (client_base.cfg) {
      source = client_base.cfg.destination;
      destination = client_base.cfg.source;
    };
    listen = false;
  };
  interface =
      NetworkInterface.new (2 ∷ 0 ∷ 0 ∷ 0 ∷ 0 ∷ 2 ∷ []) (record { ip = 0x0a00_0002; port = 0 });
  next_hop = record { ip = 0x0a00_0001; port = 0 };
  written = [];
}

abbrev segment : TcpSegment
segment = record {
  header = record (default_header) { seqno = 7; syn = true; win = 1000 };
  payload = 1 ∷ 255 ∷ [];
}

segment-Fits : AdapterLaws.Fits client.base segment
unfolding default_header with_ports client
segment-Fits = record {
  word = omega arith;
  doff_low = omega arith;
  size = omega arith;
  source = omega arith;
  destination = omega arith;
}

linked : IsLinked client server
unfolding client server NetworkInterface.new
linked = record {
  peer = record { here = refl; there = refl; connected = refl };
  since = 7;
  known = refl;
  idle = refl;
  here = record {
    ip = omega arith;
    ethernet_length = refl;
    ethernet_bytes = (
      omega arith,
      (omega arith, (omega arith, (omega arith, (omega arith, (omega arith, tt))))),
    );
  };
  there = record {
    ip = omega arith;
    ethernet_length = refl;
    ethernet_bytes = (
      omega arith,
      (omega arith, (omega arith, (omega arith, (omega arith, (omega arith, tt))))),
    );
  };
}

read-write_example :
    ((write client segment).2 ≡ returned)
    × ((write client segment).1.written
        ≡ client.written
          ++ (flat (serialize_frame (carried client server.interface.ethernet_address segment))
              ∷ []))
    × ((read server
          (flat (serialize_frame (carried client server.interface.ethernet_address segment)))).1
        ≡ returned)
    × ((read server
          (flat (serialize_frame (carried client server.interface.ethernet_address segment)))).2
        ≡ some (AdapterLaws.sent client.base segment))
read-write_example = read-write client server segment linked segment-Fits
