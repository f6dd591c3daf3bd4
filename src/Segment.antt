-- ===== src/Segment.antt =====
-- The fields of libsponge/tcp_helpers/tcp_header.hh, and libsponge/tcp_helpers/tcp_segment.hh and .cc
-- as far as the connection uses them. A `Buffer` of libsponge/util/buffer.hh is the list of its bytes.
pub mod Codec
pub mod Fields
pub mod Roundtrip
pub mod Faults
mod Examples
use csed.Base.{ℕ, ◌+◌, Bool, false, List, [], length, if◌then◌else◌}
use csed.Wrapping.{WrappingInt32}

pub record TcpHeader : Type 0 where
  pub sport : ℕ
  pub dport : ℕ
  pub seqno : WrappingInt32
  pub ackno : WrappingInt32
  pub doff : ℕ
  pub urg : Bool
  pub ack : Bool
  pub psh : Bool
  pub rst : Bool
  pub syn : Bool
  pub fin : Bool
  pub win : ℕ
  pub cksum : ℕ
  pub uptr : ℕ

-- The initial values of the fields; `doff` is the 20 bytes of a header without options, over 4.
unfoldable pub default_header : TcpHeader
default_header = record {
  sport = 0;
  dport = 0;
  seqno = 0;
  ackno = 0;
  doff = 5;
  urg = false;
  ack = false;
  psh = false;
  rst = false;
  syn = false;
  fin = false;
  win = 0;
  cksum = 0;
  uptr = 0;
}

pub record TcpSegment : Type 0 where
  pub header : TcpHeader
  pub payload : List ℕ

unfoldable pub default_segment : TcpSegment
unfolding default_header
default_segment = record { header = default_header; payload = [] }

unfoldable pub length_in_sequence_space : TcpSegment → ℕ
length_in_sequence_space seg =
    length seg.payload + (if seg.header.syn then 1 else 0) + (if seg.header.fin then 1 else 0)
