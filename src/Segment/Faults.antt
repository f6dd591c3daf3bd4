-- ===== src/Segment/Faults.antt =====
-- libsponge/tcp_helpers/tcp_segment.cc: `TCPSegment::parse` drops what the header's `parse` returns.
use csed.Base.{ℕ, ◌<◌, ◌≡◌, refl, ap, ◌∙◌, true, not, List, ◌++◌, arith, ltb, ◌==◌, if◌then◌else◌}
use csed.Checksum
use csed.Parser.{ParseResult, no_error, bad_checksum, header_too_short, NetParser, from_buffer}
use csed.Segment.{TcpHeader, TcpSegment}
use csed.Segment.Codec.{parse, parse_header, write_fields, fields, skip_options}
use csed.Segment.Fields.{IsWord, write_fields-wire, fields_lem}

parse_header_short :
    (h : TcpHeader) (payload : List ℕ)
    → IsWord h
    → h.doff < 5
    → parse_header (from_buffer (write_fields h ++ payload))
      ≡ (header_too_short, h, from_buffer payload)
unfolding parse_header skip_options
parse_header_short h payload w short =
    let stop : ltb h.doff 5 ≡ true = ground (arith, short) in
    ap (λ (r : NetParser × TcpHeader). let (e, p) = skip_options r.1 r.0 in (e, r.1, p))
      (ap (λ xs. fields (from_buffer xs)) (write_fields-wire h payload) ∙ fields_lem h payload w)
    ∙ rw stop refl

-- A segment with a data offset below 5, a value that the header's own `parse` answers with
-- `header_too_short`, is taken without an error if the sum over its bytes is good: the bytes
-- after the first 20 are its payload.
pub parse_short_header :
    (before : TcpSegment) (h : TcpHeader) (payload : List ℕ) (initial : ℕ)
    → IsWord h
    → h.doff < 5
    → Checksum.value (Checksum.add (Checksum.new initial) (write_fields h ++ payload)) ≡ 0
    → ((parse_header (from_buffer (write_fields h ++ payload))).0 ≡ header_too_short)
      × (parse before (write_fields h ++ payload) initial
          ≡ (no_error, record { header = h; payload = payload }))
unfolding parse
parse_short_header before h payload initial w short good =
    let e = parse_header_short h payload w short in
    let check = Checksum.value (Checksum.add (Checksum.new initial) (write_fields h ++ payload)) in
    (
      ap (λ (r : ParseResult × TcpHeader × NetParser). r.0) e,
      ap (taken check) e ∙ ap (λ n. taken n (header_too_short, h, from_buffer payload)) good,
    )
  where
    taken : ℕ → ParseResult × TcpHeader × NetParser → ParseResult × TcpSegment
    taken n r =
        if not (n == 0)
        then (bad_checksum, before)
        else (r.2.error, record { header = r.1; payload = r.2.buffer })
