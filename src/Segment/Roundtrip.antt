-- ===== src/Segment/Roundtrip.antt =====
-- libsponge/tcp_helpers/tcp_segment.cc: what is written is read back, with a good checksum.
use csed.Base.{
  ℕ, ◌+◌, ◌-◌, ◌*◌, ◌^◌, ◌≤◌, ◌<◌, ◌≡◌, refl, ap, ◌∙◌, false, not, some, List, [], ◌++◌, arith,
  length, length-append, replicate, ◌==◌, if◌then◌else◌, u32_mod, ◌∷◌,
}
use mathlib.Core.Option
use csed.Checksum
use csed.Checksum.Laws.{
  words, words-le, words-digits, value-words, value-add_value, add-append, value-lt,
}
use csed.Buffer.Views.{flat, flat_two}
use csed.Parser.{ParseResult, no_error, bad_checksum, NetParser, from_buffer, append_to}
use csed.Parser.Roundtrip.{digits}
use csed.Segment.{TcpHeader, TcpSegment}
use csed.Segment.Fields.{
  IsWord, front, wire, head, length-head, wire-append, serialize_header-head, parse_header-head,
}
use csed.Segment.Codec.{parse, serialize, serialize_with, serialize_header, flag_byte}

-- The header's fields fit their widths, it has 20 bytes at least, and the sum over the segment, begun
-- at `initial`, stays within 32 bits.
pub record IsWhole (seg : TcpSegment) (initial : ℕ) : Type 0 where
  pub word : IsWord seg.header
  pub doff_low : 5 ≤ seg.header.doff
  pub short : initial + (4 * seg.header.doff + length seg.payload) * 65280 + 0xffff < u32_mod

-- The sum of the words of a segment, without its checksum.
pub rest_sum : TcpHeader → List ℕ → ℕ
rest_sum h payload =
    words false (front h [])
    + words false (digits 2 h.uptr ++ (replicate (4 * h.doff - 20) 0 ++ payload))

words-front :
    (h : TcpHeader) (rest : List ℕ)
    → words false (front h rest) ≡ words false (front h []) + words false rest
unfolding front digits
words-front h rest = omega arith

words-segment :
    (h : TcpHeader) (payload : List ℕ)
    → h.cksum < 2 ^ 16
    → words false (head h ++ payload) ≡ h.cksum + rest_sum h payload
unfolding head wire rest_sum
words-segment h payload small =
    let tail = digits 2 h.uptr ++ (replicate (4 * h.doff - 20) 0 ++ payload) in
    let e : head h ++ payload ≡ front h (digits 2 h.cksum ++ tail) =
      wire-append h (replicate (4 * h.doff - 20) 0) payload in
    ap (words false) e
    ∙ omega (arith, words-front h (digits 2 h.cksum ++ tail), words-digits h.cksum tail small)

rest_sum-cksum :
    (h : TcpHeader) (c : ℕ) (payload : List ℕ)
    → rest_sum (record h { cksum = c }) payload ≡ rest_sum h payload
unfolding rest_sum front flag_byte
rest_sum-cksum h c payload = refl

-- The checksum over the bytes of a segment.
value-segment :
    (h : TcpHeader) (payload : List ℕ) (initial : ℕ)
    → h.cksum < 2 ^ 16
    → 5 ≤ h.doff
    → initial + (4 * h.doff + length payload) * 65280 < u32_mod
    → Checksum.value (Checksum.add (Checksum.new initial) (head h ++ payload))
      ≡ Checksum.value (Checksum.new (initial + (h.cksum + rest_sum h payload)))
value-segment h payload initial small lo short =
    value-words initial (head h ++ payload)
      (omega (arith, length-append (head h) payload, length-head h lo, short))
    ∙ ap (λ n. Checksum.value (Checksum.new (initial + n))) (words-segment h payload small)

-- The header as it is sent.
abbrev pub sent_header : TcpSegment → ℕ → TcpHeader
sent_header seg initial = record (seg.header) {
  cksum = Checksum.value (Checksum.new (initial + rest_sum seg.header seg.payload));
}

with_cksum : (h : TcpHeader) (c : ℕ) → IsWord h → c < 2 ^ 16 → IsWord (record h { cksum = c })
with_cksum h c w small = record {
  sport = w.sport;
  dport = w.dport;
  seqno = w.seqno;
  ackno = w.ackno;
  doff_high = w.doff_high;
  win = w.win;
  cksum = small;
  uptr = w.uptr;
}

pub serialize_lem :
    (seg : TcpSegment) (initial : ℕ)
    → IsWhole seg initial
    → serialize seg initial ≡ some (head (sent_header seg initial) ∷ seg.payload ∷ [])
unfolding serialize serialize_with append_to
serialize_lem seg initial w =
    let z = record (seg.header) { cksum = 0 } in
    let checked =
      ap Checksum.value (add-append (Checksum.new initial) (head z) seg.payload)
      ∙ value-segment z seg.payload initial (omega arith) w.doff_low (omega (arith, w.short))
      ∙ ap (λ n. Checksum.value (Checksum.new n)) {x = initial + (0 + rest_sum z seg.payload)}
          (omega (arith, rest_sum-cksum seg.header 0 seg.payload)) in
    ap (serialize_with seg initial) (serialize_header-head z w.doff_low)
    ∙ ap (λ c. append_to (serialize_header (record (seg.header) { cksum = c })) (seg.payload ∷ []))
        checked
    ∙ ap (λ bytes. append_to bytes (seg.payload ∷ []))
        (serialize_header-head (sent_header seg initial) w.doff_low)

-- The sum over a segment as it is sent is complete.
complete_lem :
    (seg : TcpSegment) (initial : ℕ)
    → IsWhole seg initial
    → Checksum.value
        (Checksum.add (Checksum.new initial) (head (sent_header seg initial) ++ seg.payload))
      ≡ 0
complete_lem seg initial w =
    let s = sent_header seg initial in
    let n = initial + rest_sum seg.header seg.payload in
    let lo = w.doff_low in
    let short = w.short in
    let z = record (seg.header) { cksum = 0 } in
    let small : rest_sum seg.header seg.payload
        ≤ (4 * seg.header.doff + length seg.payload) * 65280 =
      omega (
        arith,
        words-segment z seg.payload (omega arith),
        rest_sum-cksum seg.header 0 seg.payload,
        words-le false (head z ++ seg.payload),
        length-append (head z) seg.payload,
        length-head z lo,
      ) in
    value-segment s seg.payload initial (value-lt n) lo (omega (arith, short))
    ∙ ap (λ m. Checksum.value (Checksum.new m))
        {x = initial + (Checksum.value (Checksum.new n) + rest_sum s seg.payload)}
        {y = n + Checksum.value (Checksum.new n)}
        (omega (arith, rest_sum-cksum seg.header s.cksum seg.payload))
    ∙ value-add_value n (omega (arith, small, short))

pub parse_lem :
    (before seg : TcpSegment) (initial : ℕ)
    → IsWhole seg initial
    → parse before (head (sent_header seg initial) ++ seg.payload) initial
      ≡ (no_error, record seg { header = sent_header seg initial })
unfolding parse
parse_lem before seg initial w =
    let s = sent_header seg initial in
    let sw = with_cksum seg.header s.cksum w.word (value-lt _) in
    ap (taken (Checksum.value (Checksum.add (Checksum.new initial) (head s ++ seg.payload))))
      (parse_header-head s seg.payload sw w.doff_low)
    ∙ ap (λ n. taken n (no_error, s, from_buffer seg.payload)) (complete_lem seg initial w)
  where
    taken : ℕ → ParseResult × TcpHeader × NetParser → ParseResult × TcpSegment
    taken n r =
        if not (n == 0)
        then (bad_checksum, before)
        else (r.2.error, record { header = r.1; payload = r.2.buffer })

-- For a segment whose header's fields fit their widths, with a header of 20 to 60 bytes, and any sum of
-- the layer below with which the sum over the segment stays within 32 bits, `serialize` throws nothing,
-- and `parse` with the same sum makes of its bytes the segment again, with the checksum filled in and
-- without an error, whatever the segment object held before.
pub parse-serialize_segment :
    (before seg : TcpSegment) (initial : ℕ)
    → IsWhole seg initial
    → Option.map (λ buffers. parse before (flat buffers) initial) (serialize seg initial)
      ≡ some (no_error, record seg { header = sent_header seg initial })
parse-serialize_segment before seg initial w =
    ap (Option.map (λ buffers. parse before (flat buffers) initial)) (serialize_lem seg initial w)
    ∙ ap some (
        ap (λ bytes. parse before bytes initial)
          (flat_two (head (sent_header seg initial)) seg.payload)
        ∙ parse_lem before seg initial w)
