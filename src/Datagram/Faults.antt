-- ===== src/Datagram/Faults.antt =====
-- libsponge/tcp_helpers/ipv4_datagram.cc: `IPv4Datagram::parse` drops what the header's `parse` returns.
use csed.Base.{◌≡◌, ap, ◌∙◌, some, ◌++◌}
use mathlib.Core.Option
use csed.Buffer.Views.{flat}
use csed.Parser.{no_error}
use csed.Ipv4
use csed.Datagram.{Ipv4Datagram, parse}
use csed.Datagram.Roundtrip.{IsWhole, serialize-head, in_one, parse_lem}

-- A datagram of version 4 whose header's fields fit their widths, with a header of 20 to 60 bytes and the length of
-- the whole, is taken without an error whatever 16-bit number stands in its checksum field.
pub parse_any_checksum :
    (before d : Ipv4Datagram)
    → IsWhole d
    → Option.map (λ header. parse before (header ++ flat d.payload)) (Ipv4.serialize d.header)
      ≡ some (no_error, in_one d)
parse_any_checksum before d w =
    ap (Option.map (λ header. parse before (header ++ flat d.payload)))
      (serialize-head d.header w.word)
    ∙ ap some (parse_lem before d w)
