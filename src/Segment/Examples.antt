-- ===== src/Segment/Examples.antt =====
-- Runs of libsponge/tcp_helpers/tcp_segment.cc.
use csed.Base.{◌≡◌, refl, arith, true, some, [], ◌∷◌, ◌++◌}
use mathlib.Core.Option
use csed.Buffer.Views.{flat}
use csed.Checksum
use csed.Parser
use csed.Parser.{no_error, header_too_short, from_buffer}
use csed.Segment.{TcpHeader, TcpSegment, default_header, default_segment}
use csed.Segment.Codec.{parse, serialize, parse_header, write_fields, flag_byte}
use csed.Segment.Fields.{IsWord}
use csed.Segment.Roundtrip.{IsWhole, sent_header, parse-serialize_segment}
use csed.Segment.Faults.{parse_short_header}

-- A SYN with two bytes of payload and a header of 24 bytes.
abbrev segment : TcpSegment
segment = record {
  header = record (default_header) {
    sport = 80;
    dport = 0xffff;
    seqno = 7;
    doff = 6;
    syn = true;
    win = 1000;
  };
  payload = 1 ∷ 255 ∷ [];
}

segment-IsWhole : IsWhole segment 300
unfolding default_header
segment-IsWhole = record { word = omega arith; doff_low = omega arith; short = omega arith }

parse-serialize_segment_example :
    Option.map (λ buffers. parse default_segment (flat buffers) 300) (serialize segment 300)
    ≡ some (no_error, record segment { header = sent_header segment 300 })
parse-serialize_segment_example =
    parse-serialize_segment default_segment segment 300 segment-IsWhole

-- A header with the data offset 4, and its checksum.
abbrev short_header : TcpHeader
short_header = record (default_header) { doff = 4; cksum = 49151 }

short_header-IsWord : IsWord short_header
unfolding default_header
short_header-IsWord = omega arith

parse-short_header_run :
    ((parse_header (from_buffer (write_fields short_header ++ (0 ∷ 0 ∷ [])))).0 ≡ header_too_short)
    × (parse default_segment (write_fields short_header ++ (0 ∷ 0 ∷ [])) 0
        ≡ (no_error, record { header = short_header; payload = 0 ∷ 0 ∷ [] }))
unfolding default_header write_fields flag_byte Checksum.value Checksum.add Checksum.add_byte
    Checksum.fold Checksum.new Parser.unparse_int Parser.unparse_loop
parse-short_header_run =
    parse_short_header default_segment short_header (0 ∷ 0 ∷ []) 0 short_header-IsWord (omega arith)
      refl
