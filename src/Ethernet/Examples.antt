-- ===== src/Ethernet/Examples.antt =====
-- Runs of libsponge/tcp_helpers/ethernet_frame.cc.
use csed.Base.{◌≡◌, refl, arith, [], ◌∷◌, replicate}
use csed.Buffer.Views.{flat}
use csed.Parser.{no_error}
use csed.Ethernet.{EthernetFrame, parse_frame, serialize_frame}
use csed.Ethernet.Laws.{parse_frame-serialize_frame, parse_frame_short}

abbrev frame : EthernetFrame
frame = record {
  header = record { dst = replicate 6 255; src = 2 ∷ 0 ∷ 0 ∷ 1 ∷ 35 ∷ 9 ∷ []; type = 2054 };
  payload = (1 ∷ []) ∷ (2 ∷ []) ∷ [];
}

abbrev blank : EthernetFrame
blank = record {
  header = record { dst = replicate 6 0; src = replicate 6 0; type = 0 };
  payload = [];
}

parse_frame-serialize_frame_example :
    parse_frame blank (flat (serialize_frame frame))
    ≡ (no_error, record frame { payload = (1 ∷ 2 ∷ []) ∷ [] })
parse_frame-serialize_frame_example = parse_frame-serialize_frame frame blank (record {
  dst_length = refl;
  src_length = refl;
  dst_bytes =
      (omega arith, (omega arith, (omega arith, (omega arith, (omega arith, (omega arith, tt))))));
  src_bytes =
      (omega arith, (omega arith, (omega arith, (omega arith, (omega arith, (omega arith, tt))))));
  type_word = omega arith;
})

parse_frame_short_run :
    parse_frame blank (1 ∷ 2 ∷ 3 ∷ [])
    ≡ (no_error, record blank { payload = (1 ∷ 2 ∷ 3 ∷ []) ∷ [] })
parse_frame_short_run = parse_frame_short blank (1 ∷ 2 ∷ 3 ∷ []) (omega arith)
