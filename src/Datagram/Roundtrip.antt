-- ===== src/Datagram/Roundtrip.antt =====
-- libsponge/tcp_helpers/ipv4_datagram.cc: what is written is read back, with a good checksum.
use csed.Base.{
  ℕ, ◌+◌, ◌-◌, ◌*◌, ◌^◌, ◌<◌, ◌≡◌, refl, sym, ap, ◌∙◌, false, true, not, some, List, ◌++◌, arith,
  length, length-append, length-replicate, replicate, ltb, ◌==◌, if◌then◌else◌, take-append_self,
  drop-append_self, [], ◌∷◌,
}
use mathlib.Core.Option
use csed.Checksum
use csed.Checksum.Laws.{value-lt}
use csed.Parser.Roundtrip.{digits}
use csed.Buffer.Views.{flat}
use csed.Parser.{
  ParseResult, append_to, no_error, packet_too_short, bad_checksum, NetParser, from_buffer,
  remove_prefix, check_size, is_error,
}
use csed.Ipv4
use csed.Ipv4.{Ipv4Header, payload_length, checks, check_sum, fields}
use csed.Ipv4.Fields.{IsWord, wire, front, back, fields_lem}
use csed.Ipv4.Checksums.{
  head, rest_sum, rest_sum-cksum, length-head, resize-write_fields, value-head, complete_lem,
}
use csed.Datagram.{Ipv4Datagram, parse, serialize, serialize_sealed, sealed}

-- The header has the version 4, its fields fit their widths, and its length is that of the datagram.
pub record IsWhole (d : Ipv4Datagram) : Type 0 where
  pub word : IsWord d.header
  pub sized : d.header.len ≡ 4 * d.header.hlen + length (flat d.payload)

-- The header as it is sent.
abbrev pub sent_header : Ipv4Header → Ipv4Header
sent_header h = record h { cksum = Checksum.value (Checksum.new (rest_sum h)) }

pub serialize-head : (h : Ipv4Header) → IsWord h → Ipv4.serialize h ≡ some (head h)
unfolding Ipv4.serialize
serialize-head h w =
    let four : (h.ver == 4) ≡ true = ground (arith, w.ver) in
    let long : ltb (4 * h.hlen) 20 ≡ false = ground (arith, w.hlen_low) in
    rw (four, long) (ap some (resize-write_fields h w.hlen_low))

with_cksum : (h : Ipv4Header) (c : ℕ) → IsWord h → c < 2 ^ 16 → IsWord (record h { cksum = c })
with_cksum h c w small = record {
  ver = w.ver;
  hlen_low = w.hlen_low;
  hlen_high = w.hlen_high;
  tos = w.tos;
  len = w.len;
  id = w.id;
  offset = w.offset;
  ttl = w.ttl;
  proto = w.proto;
  cksum = small;
  src = w.src;
  dst = w.dst;
}

pub sent-IsWord : (h : Ipv4Header) → IsWord h → IsWord (sent_header h)
sent-IsWord h w = with_cksum h _ w (value-lt (rest_sum h))

payload_length-IsWhole :
    (d : Ipv4Datagram) → IsWhole d → (length (flat d.payload) == payload_length d.header) ≡ true
unfolding payload_length
payload_length-IsWhole d w =
    let e = w.sized in let len = w.word.len in let h = w.word.hlen_high in ground (arith, e, len, h)

pub serialize_lem :
    (d : Ipv4Datagram) → IsWhole d → serialize d ≡ some (head (sent_header d.header) ∷ d.payload)
unfolding serialize serialize_sealed sealed append_to
serialize_lem d w =
    let z = record (d.header) { cksum = 0 } in
    let zw = with_cksum d.header 0 w.word (omega arith) in
    let v =
      value-head z zw
      ∙ ap (λ n. Checksum.value (Checksum.new n)) {x = 0 + rest_sum z}
          (omega (arith, rest_sum-cksum d.header 0)) in
    rw (payload_length-IsWhole d w) (
      ap (serialize_sealed d) (serialize-head z zw)
      ∙ ap (λ c. append_to (Ipv4.serialize (record (d.header) { cksum = c })) d.payload) v
      ∙ ap (λ bytes. append_to bytes d.payload)
          (serialize-head (sent_header d.header) (sent-IsWord d.header w.word)))

wire-append : (h : Ipv4Header) (xs ys : List ℕ) → wire h xs ++ ys ≡ wire h (xs ++ ys)
unfolding wire front back digits
wire-append h xs ys = refl

-- All tests of a header but that of the checksum pass.
checks_lem :
    (h : Ipv4Header) (payload : List ℕ)
    → IsWord h
    → h.len ≡ 4 * h.hlen + length payload
    → checks h (head h ++ payload) (from_buffer (replicate (4 * h.hlen - 20) 0 ++ payload))
      ≡ (check_sum h (head h ++ payload), from_buffer payload)
unfolding checks remove_prefix check_size is_error
checks_lem h payload w sized =
    let zeros = replicate {A = ℕ} (4 * h.hlen - 20) 0 in
    let n : length zeros ≡ h.hlen * 4 - 20 =
      omega (arith, length-replicate {A = ℕ} (4 * h.hlen - 20) 0) in
    let size : length (head h ++ payload) ≡ h.len =
      omega (arith, length-append (head h) payload, length-head h w.hlen_low, sized) in
    let whole : ltb (length (head h ++ payload)) (4 * h.hlen) ≡ false =
      ground (arith, size, sized) in
    let four : (h.ver == 4) ≡ true = ground (arith, w.ver) in
    let long : ltb h.hlen 5 ≡ false = ground (arith, w.hlen_low) in
    let same : (length (head h ++ payload) == h.len) ≡ true = ground (arith, size) in
    let fits : ltb (length (zeros ++ payload)) (h.hlen * 4 - 20) ≡ false =
      ground (arith, n, length-append zeros payload) in
    rw (whole, four, long, same, fits)
      (ap (λ xs. (check_sum h (head h ++ payload), from_buffer xs))
        (drop-append_self zeros payload _ n))

-- The header's result is that of the checksum.
pub header_lem :
    (before h : Ipv4Header) (payload : List ℕ)
    → IsWord h
    → h.len ≡ 4 * h.hlen + length payload
    → Ipv4.parse before (from_buffer (head h ++ payload))
      ≡ (check_sum h (head h ++ payload), h, from_buffer payload)
unfolding Ipv4.parse
header_lem before h payload w sized =
    let bytes = head h ++ payload in
    let long : ltb (length bytes) 20 ≡ false =
      ground (arith, length-append (head h) payload, length-head h w.hlen_low, w.hlen_low) in
    let e : fields (from_buffer bytes)
        ≡ (from_buffer (replicate (4 * h.hlen - 20) 0 ++ payload), h) =
      unfold head in
      ap (λ xs. fields (from_buffer xs)) (wire-append h _ payload) ∙ fields_lem h _ w in
    rw long (
      ap (λ (r : NetParser × Ipv4Header). after r.1 (checks r.1 bytes r.0)) e
      ∙ ap (after h) (checks_lem h payload w sized))
  where
    after : Ipv4Header → ParseResult × NetParser → ParseResult × Ipv4Header × NetParser
    after h r = (r.0, h, r.1)

-- The datagram with its payload in one buffer, as `parse` makes it.
abbrev pub in_one : Ipv4Datagram → Ipv4Datagram
in_one d = record d { payload = flat d.payload ∷ [] }

-- Whatever the checksum says, the datagram is taken.
pub parse_lem :
    (before d : Ipv4Datagram)
    → IsWhole d
    → parse before (head d.header ++ flat d.payload) ≡ (no_error, in_one d)
unfolding parse
parse_lem before d w =
    ap taken (header_lem before.header d.header (flat d.payload) w.word w.sized)
    ∙ ap (λ b. (if not b then packet_too_short else no_error, in_one d))
        (payload_length-IsWhole d w)
  where
    taken : ParseResult × Ipv4Header × NetParser → ParseResult × Ipv4Datagram
    taken r = (
      if not (length r.2.buffer == payload_length r.1) then packet_too_short else r.2.error,
      record { header = r.1; payload = r.2.buffer ∷ [] },
    )

check_sum-sent :
    (h : Ipv4Header) (payload : List ℕ)
    → IsWord h
    → check_sum (sent_header h) (head (sent_header h) ++ payload) ≡ no_error
unfolding check_sum
check_sum-sent h payload w =
    let s = sent_header h in
    let bytes = take-append_self (head s) payload (4 * h.hlen) (length-head s w.hlen_low) in
    let good =
      complete_lem s (sent-IsWord h w)
        (ap (λ n. Checksum.value (Checksum.new n)) (sym (rest_sum-cksum h _))) in
    ap
      (λ xs.
        if Checksum.value (Checksum.add (Checksum.new 0) xs) == 0 then no_error else bad_checksum)
      bytes
    ∙ ap (λ n. if n == 0 then no_error else bad_checksum) good

pub sent-IsWhole :
    (d : Ipv4Datagram) → IsWhole d → IsWhole (record d { header = sent_header d.header })
sent-IsWhole d w = record { word = sent-IsWord d.header w.word; sized = w.sized }

-- For a datagram of version 4 whose header's fields fit their widths, with a header of 20 to 60 bytes and
-- the length of the whole, `serialize` throws nothing. Of its bytes, `parse` makes the datagram again, with the
-- checksum filled in and the payload in one buffer, and the header's own `parse` finds no error, the
-- checksum included.
pub parse-serialize_datagram :
    (before d : Ipv4Datagram)
    → IsWhole d
    → (Option.map (λ buffers. parse before (flat buffers)) (serialize d)
        ≡ some (no_error, in_one (record d { header = sent_header d.header })))
      × (Option.map
            (λ buffers. (Ipv4.parse before.header (from_buffer (flat buffers))).0)
            (serialize d)
          ≡ some no_error)
parse-serialize_datagram before d w =
    let sent : Ipv4Datagram = record d { header = sent_header d.header } in
    let sw = sent-IsWhole d w in
    (
      ap (Option.map (λ buffers. parse before (flat buffers))) (serialize_lem d w)
          ∙ ap some (parse_lem before sent sw),
      ap (Option.map (λ buffers. (Ipv4.parse before.header (from_buffer (flat buffers))).0))
            (serialize_lem d w)
          ∙ ap some (
              ap (λ (r : ParseResult × Ipv4Header × NetParser). r.0)
                (header_lem before.header sent.header (flat d.payload) sw.word sw.sized)
              ∙ check_sum-sent d.header (flat d.payload) w.word),
    )
