-- ===== src/Adapter.antt =====
-- `FdAdapterBase` of libsponge/tcp_helpers/fd_adapter.hh and `FdAdapterConfig` of
-- libsponge/tcp_helpers/tcp_config.hh. An `Address` is the number of an IPv4 address and a port: what
-- its `ipv4_numeric()` and `port()` give; the numbers survive the conversions of `inet_ntoa`.
pub mod OverIp
pub mod Datagrams
pub mod Lossy
pub mod Laws
mod Examples
use csed.Base.{ℕ, Bool, false, ◌&&◌, ◌==◌}

pub record Address : Type 0 where
  pub ip : ℕ
  pub port : ℕ

unfoldable pub same_address : Address → Address → Bool
same_address a b = (a.ip == b.ip) && (a.port == b.port)

pub record FdAdapterConfig : Type 0 where
  pub source : Address
  pub destination : Address
  pub loss_rate_dn : ℕ
  pub loss_rate_up : ℕ

unfoldable pub default_config : FdAdapterConfig
default_config = record {
  source = record { ip = 0; port = 0 };
  destination = record { ip = 0; port = 0 };
  loss_rate_dn = 0;
  loss_rate_up = 0;
}

pub record FdAdapterBase : Type 0 where
  pub cfg : FdAdapterConfig
  pub listen : Bool

unfoldable pub new : FdAdapterBase
unfolding default_config
new = record { cfg = default_config; listen = false }

unfoldable pub set_listening : FdAdapterBase → Bool → FdAdapterBase
set_listening a l = record a { listen = l }
