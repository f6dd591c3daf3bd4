-- ===== src/Ipv4/Checksums.antt =====
-- libsponge/tcp_helpers/ipv4_header.cc: the bytes of a header, and the checksum over them.
use csed.Base.{
  ℕ, ◌+◌, ◌-◌, ◌*◌, ◌^◌, ◌≤◌, ◌<◌, ◌≡◌, refl, sym, ap, ap₂, ◌∙◌, false, List, [], ◌++◌, append-nil,
  arith, length, length-replicate, take_all, replicate,
}
use csed.Checksum
use csed.Checksum.Laws.{words, value-words, words-digits, value-add_value, words-le}
use csed.Parser.Roundtrip.{digits}
use csed.Parser.{resize}
use csed.Ipv4.{Ipv4Header, write_fields, first_byte, fo_val}
use csed.Ipv4.Fields.{IsWord, wire, front, back, write_fields-wire}

-- The header in bytes, its options 0.
unfoldable pub head : Ipv4Header → List ℕ
head h = wire h (replicate (4 * h.hlen - 20) 0)

pub length-wire : (h : Ipv4Header) (rest : List ℕ) → length (wire h rest) ≡ 20 + length rest
unfolding wire front back digits
length-wire h rest = omega arith

pub length-head : (h : Ipv4Header) → 5 ≤ h.hlen → length (head h) ≡ 4 * h.hlen
unfolding head
length-head h lo = omega (
  arith,
  length-wire h (replicate (4 * h.hlen - 20) 0),
  length-replicate {A = ℕ} (4 * h.hlen - 20) 0,
  lo,
)

pub resize-write_fields :
    (h : Ipv4Header) → 5 ≤ h.hlen → resize (write_fields h) (4 * h.hlen) ≡ head h
unfolding resize head
resize-write_fields h lo =
    let e : length (write_fields h) ≡ 20 =
      ap length (sym (append-nil (write_fields h)) ∙ write_fields-wire h []) ∙ length-wire h [] in
    let rest : 4 * h.hlen - length (write_fields h) ≡ 4 * h.hlen - 20 = omega (arith, e) in
    ap₂ (λ xs n. xs ++ replicate n 0)
      (take_all (4 * h.hlen) (write_fields h) (omega (arith, e, lo))) rest
    ∙ write_fields-wire h _

words-front :
    (h : Ipv4Header) (rest : List ℕ)
    → words false (front h rest) ≡ words false (front h []) + words false rest
unfolding front digits
words-front h rest = omega arith

-- The sum of the words of a header, without its checksum.
pub rest_sum : Ipv4Header → ℕ
rest_sum h = words false (front h []) + words false (back h (replicate (4 * h.hlen - 20) 0))

pub words-head : (h : Ipv4Header) → h.cksum < 2 ^ 16 → words false (head h) ≡ h.cksum + rest_sum h
unfolding head wire rest_sum
words-head h small =
    let back_bytes = back h (replicate (4 * h.hlen - 20) 0) in
    omega
      (arith, words-front h (digits 2 h.cksum ++ back_bytes), words-digits h.cksum back_bytes small)

-- The checksum of the bytes of a header is that of its sum.
pub value-head :
    (h : Ipv4Header)
    → IsWord h
    → Checksum.value (Checksum.add (Checksum.new 0) (head h))
      ≡ Checksum.value (Checksum.new (h.cksum + rest_sum h))
value-head h w =
    value-words 0 (head h) (omega (arith, length-head h w.hlen_low, w.hlen_high))
    ∙ ap (λ n. Checksum.value (Checksum.new n)) {x = 0 + words false (head h)}
        (omega (arith, words-head h w.cksum))

-- A header that carries the checksum of the same header with the field 0 passes the test.
pub complete_lem :
    (h : Ipv4Header)
    → IsWord h
    → h.cksum ≡ Checksum.value (Checksum.new (rest_sum h))
    → Checksum.value (Checksum.add (Checksum.new 0) (head h)) ≡ 0
complete_lem h w e =
    value-head h w
    ∙ ap (λ n. Checksum.value (Checksum.new n))
        {y = rest_sum h + Checksum.value (Checksum.new (rest_sum h))} (omega (arith, e))
    ∙ value-add_value (rest_sum h) (
        omega (
          arith,
          words-head h w.cksum,
          words-le false (head h),
          length-head h w.hlen_low,
          w.hlen_high,
        ))

pub rest_sum-cksum : (h : Ipv4Header) (c : ℕ) → rest_sum (record h { cksum = c }) ≡ rest_sum h
unfolding rest_sum front back first_byte fo_val
rest_sum-cksum h c = refl
