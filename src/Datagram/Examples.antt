-- ===== src/Datagram/Examples.antt =====
-- Runs of libsponge/tcp_helpers/ipv4_datagram.cc.
use csed.Base.{◌≡◌, refl, arith, true, false, some, [], ◌∷◌, ◌++◌}
use mathlib.Core.Option
use csed.Buffer.Views.{flat}
use csed.Checksum
use csed.Parser
use csed.Parser.{ParseResult, no_error, bad_checksum, from_buffer}
use csed.Ipv4
use csed.Ipv4.{Ipv4Header}
use csed.Datagram.{Ipv4Datagram, parse, serialize}
use csed.Datagram.Roundtrip.{IsWhole, sent_header, in_one, parse-serialize_datagram}
use csed.Datagram.Faults.{parse_any_checksum}

-- A datagram of 26 bytes, with two bytes of payload, in two buffers, and a header of 24 bytes.
abbrev datagram : Ipv4Datagram
datagram = record {
  header = record {
    ver = 4;
    hlen = 6;
    tos = 0;
    len = 26;
    id = 7;
    df = true;
    mf = false;
    offset = 3;
    ttl = 64;
    proto = 6;
    cksum = 1;
    src = 0x0a00_0001;
    dst = 0x0a00_0002;
  };
  payload = (5 ∷ []) ∷ (6 ∷ []) ∷ [];
}

abbrev blank : Ipv4Datagram
blank = record { header = record (datagram.header) { ver = 0; src = 0 }; payload = [] }

datagram-IsWhole : IsWhole datagram
datagram-IsWhole = record { word = omega arith; sized = omega arith }

parse-serialize_datagram_example :
    (Option.map (λ buffers. parse blank (flat buffers)) (serialize datagram)
      ≡ some (no_error, in_one (record datagram { header = sent_header datagram.header })))
    × (Option.map
          (λ buffers. (Ipv4.parse blank.header (from_buffer (flat buffers))).0)
          (serialize datagram)
        ≡ some no_error)
parse-serialize_datagram_example = parse-serialize_datagram blank datagram datagram-IsWhole

parse_any_checksum_run :
    Option.map
      (λ header. parse blank (header ++ flat datagram.payload))
      (Ipv4.serialize datagram.header)
    ≡ some (no_error, in_one datagram)
parse_any_checksum_run = parse_any_checksum blank datagram datagram-IsWhole

-- The header's own `parse` sees the bad checksum of `datagram`.
header_is_refused :
    Option.map
      (λ header. (Ipv4.parse blank.header (from_buffer (header ++ flat datagram.payload))).0)
      (Ipv4.serialize datagram.header)
    ≡ some bad_checksum
unfolding Ipv4.serialize Ipv4.parse Ipv4.fields Ipv4.checks Ipv4.check_sum Ipv4.write_fields
    Parser.resize Ipv4.fo_val Ipv4.first_byte Parser.unparse_int Parser.unparse_loop
    Parser.parse_int Parser.u8 Parser.u16 Parser.u32 Parser.read_bytes Parser.check_size
    Parser.is_error Parser.remove_prefix Parser.◌>>=◌ Checksum.value Checksum.add Checksum.add_byte
    Checksum.fold Checksum.new
header_is_refused = refl
