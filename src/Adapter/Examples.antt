-- ===== src/Adapter/Examples.antt =====
-- Runs of libsponge/tcp_helpers/tcp_over_ip.cc and tuntap_adapter.hh.
use csed.Base.{◌≡◌, refl, arith, true, false, some, [], ◌∷◌}
use mathlib.Core.Option
use csed.Base.Outcomes.{returned}
use csed.Segment.{TcpSegment, default_header}
use csed.Adapter.{FdAdapterBase}
use csed.Adapter.OverIp.{with_ports}
use csed.Adapter.Datagrams.{tun_read, tun_write}
use csed.Adapter.Laws.{Fits, IsPeer, IsListening, sent, accepted, tun_read-tun_write, tun_accept}

abbrev client : FdAdapterBase
client = record {
  cfg = record {
    source = record { ip = 0x0a00_0001; port = 5000 };
    destination = record { ip = 0x0a00_0002; port = 80 };
    loss_rate_dn = 0;
    loss_rate_up = 0;
  };
  listen = false;
}

abbrev server : FdAdapterBase
server = record {
  cfg = record {
    source = client.cfg.destination;
    destination = client.cfg.source;
    loss_rate_dn = 0;
    loss_rate_up = 0;
  };
  listen = false;
}

-- Bound to its port alone.
abbrev listener : FdAdapterBase
listener = record {
  cfg = record {
    source = record { ip = 0; port = 80 };
    destination = record { ip = 0; port = 0 };
    loss_rate_dn = 0;
    loss_rate_up = 0;
  };
  listen = true;
}

abbrev segment : TcpSegment
segment = record {
  header = record (default_header) { seqno = 7; syn = true; win = 1000 };
  payload = 1 ∷ 255 ∷ [];
}

segment-Fits : Fits client segment
unfolding default_header with_ports
segment-Fits = record {
  word = omega arith;
  doff_low = omega arith;
  size = omega arith;
  source = omega arith;
  destination = omega arith;
}

tun_read-tun_write_run :
    Option.map (tun_read server) (tun_write client segment)
    ≡ some (server, returned, some (sent client segment))
tun_read-tun_write_run =
    tun_read-tun_write client server segment
      (record { here = refl; there = refl; connected = refl }) segment-Fits

segment-IsListening : IsListening client listener segment
unfolding default_header
segment-IsListening = record { listening = refl; port = refl; syn = refl; not_rst = refl }

tun_accept_example :
    (Option.map (tun_read listener) (tun_write client segment)
      ≡ some (accepted client listener, returned, some (sent client segment)))
    × IsPeer client (accepted client listener)
tun_accept_example = tun_accept client listener segment segment-IsListening segment-Fits
