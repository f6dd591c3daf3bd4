-- ===== src/Segment/Fields.antt =====
-- libsponge/tcp_helpers/tcp_header.cc: the fields that are written are read back.
use csed.Base.{
  ℕ, ◌+◌, ◌-◌, ◌*◌, ◌/◌, ◌%◌, ◌^◌, ◌≤◌, ◌<◌, ◌≡◌, refl, sym, ap, ap₂, ◌∙◌, Bool, false, true, some,
  List, [], ◌++◌, append-nil, arith, length, length-append, length-replicate, replicate, ltb, ◌==◌,
  if◌then◌else◌, bit-le, take_all, drop-append_self,
}
use csed.Parser.{
  ParseResult, no_error, NetParser, from_buffer, u8, u16, u32, resize, remove_prefix, check_size,
  is_error,
}
use csed.Parser.Roundtrip.{digits, unparse_int_lem, bind_lem, u8_lem, u16_lem, u32_lem}
use csed.Segment.{TcpHeader}
use csed.Segment.Codec.{
  fields, write_fields, flag_byte, serialize_header, parse_header, skip_options,
}

-- The fields fit their widths.
pub record IsWord (h : TcpHeader) : Type 0 where
  pub sport : h.sport < 2 ^ 16
  pub dport : h.dport < 2 ^ 16
  pub seqno : h.seqno < 2 ^ 32
  pub ackno : h.ackno < 2 ^ 32
  pub doff_high : h.doff < 16
  pub win : h.win < 2 ^ 16
  pub cksum : h.cksum < 2 ^ 16
  pub uptr : h.uptr < 2 ^ 16

-- The bytes before the checksum.
unfoldable pub front : TcpHeader → List ℕ → List ℕ
front h rest =
    digits 2 h.sport
    ++ (digits 2 h.dport
        ++ (digits 4 h.seqno
            ++ (digits 4 h.ackno
                ++ (digits 1 (h.doff * 16 % 256)
                    ++ (digits 1 (flag_byte h) ++ (digits 2 h.win ++ rest))))))

unfoldable pub wire : TcpHeader → List ℕ → List ℕ
wire h rest = front h (digits 2 h.cksum ++ (digits 2 h.uptr ++ rest))

pub write_fields-wire : (h : TcpHeader) (rest : List ℕ) → write_fields h ++ rest ≡ wire h rest
unfolding write_fields wire front
write_fields-wire h rest =
    unparse_int_lem 2 _ h.uptr rest
    ∙ unparse_int_lem 2 _ h.cksum _
    ∙ unparse_int_lem 2 _ h.win _
    ∙ unparse_int_lem 1 _ (flag_byte h) _
    ∙ unparse_int_lem 1 _ (h.doff * 16 % 256) _
    ∙ unparse_int_lem 4 _ h.ackno _
    ∙ unparse_int_lem 4 _ h.seqno _
    ∙ unparse_int_lem 2 _ h.dport _
    ∙ unparse_int_lem 2 [] h.sport _

-- A flag as a number.
abbrev bit : Bool → ℕ
bit b = if b then 1 else 0

scaled : (b : Bool) (n : ℕ) → (if b then n else 0) ≡ n * bit b
scaled true n = omega arith
scaled false n = omega arith

bit-eq-one : (b : Bool) (n : ℕ) → n ≡ bit b → (n == 1) ≡ b
bit-eq-one true n e = ground (arith, e)
bit-eq-one false n e = ground (arith, e)

-- What the byte of the flags holds.
record Packed (h : TcpHeader) : Type 0 where
  small : flag_byte h < 256
  urg : (flag_byte h / 0x20 % 2 == 1) ≡ h.urg
  ack : (flag_byte h / 0x10 % 2 == 1) ≡ h.ack
  psh : (flag_byte h / 0x8 % 2 == 1) ≡ h.psh
  rst : (flag_byte h / 0x4 % 2 == 1) ≡ h.rst
  syn : (flag_byte h / 0x2 % 2 == 1) ≡ h.syn
  fin : (flag_byte h % 2 == 1) ≡ h.fin

packed_lem : (h : TcpHeader) → Packed h
packed_lem h =
    let sum : flag_byte h
        ≡ 32 * bit h.urg
          + 16 * bit h.ack
          + 8 * bit h.psh
          + 4 * bit h.rst
          + 2 * bit h.syn
          + bit h.fin =
      unfold flag_byte in
      omega (
        arith,
        scaled h.urg 32,
        scaled h.ack 16,
        scaled h.psh 8,
        scaled h.rst 4,
        scaled h.syn 2,
        scaled h.fin 1,
      ) in
    let u = bit-le h.urg in
    let a = bit-le h.ack in
    let p = bit-le h.psh in
    let r = bit-le h.rst in
    let s = bit-le h.syn in
    let f = bit-le h.fin in
    record {
      small = omega (arith, sum, u, a, p, r, s, f);
      urg = bit-eq-one h.urg _ (omega (arith, sum, u, a, p, r, s, f));
      ack = bit-eq-one h.ack _ (omega (arith, sum, u, a, p, r, s, f));
      psh = bit-eq-one h.psh _ (omega (arith, sum, u, a, p, r, s, f));
      rst = bit-eq-one h.rst _ (omega (arith, sum, u, a, p, r, s, f));
      syn = bit-eq-one h.syn _ (omega (arith, sum, u, a, p, r, s, f));
      fin = bit-eq-one h.fin _ (omega (arith, sum, u, a, p, r, s, f));
    }

pub fields_lem :
    (h : TcpHeader) (rest : List ℕ)
    → IsWord h
    → fields (from_buffer (wire h rest)) ≡ (from_buffer rest, h)
unfolding fields wire front
fields_lem h rest w =
    let k = packed_lem h in
    let doff : h.doff * 16 % 256 / 16 ≡ h.doff = omega (arith, w.doff_high) in
    bind_lem u16 _ _ _ _ (u16_lem h.sport _ w.sport)
    ∙ bind_lem u16 _ _ _ _ (u16_lem h.dport _ w.dport)
    ∙ bind_lem u32 _ _ _ _ (u32_lem h.seqno _ w.seqno)
    ∙ bind_lem u32 _ _ _ _ (u32_lem h.ackno _ w.ackno)
    ∙ bind_lem u8 _ _ _ _ (u8_lem (h.doff * 16 % 256) _ (omega arith))
    ∙ bind_lem u8 _ _ _ _ (u8_lem (flag_byte h) _ k.small)
    ∙ bind_lem u16 _ _ _ _ (u16_lem h.win _ w.win)
    ∙ bind_lem u16 _ _ _ _ (u16_lem h.cksum _ w.cksum)
    ∙ bind_lem u16 _ _ _ _ (u16_lem h.uptr _ w.uptr)
    ∙ (λ i. (
      from_buffer rest,
      record h {
        doff = doff i;
        urg = k.urg i;
        ack = k.ack i;
        psh = k.psh i;
        rst = k.rst i;
        syn = k.syn i;
        fin = k.fin i;
      },
    ))

-- The header in bytes, its options 0.
unfoldable pub head : TcpHeader → List ℕ
head h = wire h (replicate (4 * h.doff - 20) 0)

pub length-wire : (h : TcpHeader) (rest : List ℕ) → length (wire h rest) ≡ 20 + length rest
unfolding wire front digits
length-wire h rest = omega arith

pub length-head : (h : TcpHeader) → 5 ≤ h.doff → length (head h) ≡ 4 * h.doff
unfolding head
length-head h lo = omega (
  arith,
  length-wire h (replicate (4 * h.doff - 20) 0),
  length-replicate {A = ℕ} (4 * h.doff - 20) 0,
  lo,
)

pub wire-append : (h : TcpHeader) (xs ys : List ℕ) → wire h xs ++ ys ≡ wire h (xs ++ ys)
unfolding wire front digits
wire-append h xs ys = refl

pub serialize_header-head : (h : TcpHeader) → 5 ≤ h.doff → serialize_header h ≡ some (head h)
unfolding serialize_header resize head
serialize_header-head h lo =
    let e : length (write_fields h) ≡ 20 =
      ap length (sym (append-nil (write_fields h)) ∙ write_fields-wire h []) ∙ length-wire h [] in
    let rest : 4 * h.doff - length (write_fields h) ≡ 4 * h.doff - 20 = omega (arith, e) in
    let long : ltb h.doff 5 ≡ false = ground (arith, lo) in
    let all = take_all (4 * h.doff) (write_fields h) (omega (arith, e, lo)) in
    rw long (ap some (ap₂ (λ xs n. xs ++ replicate n 0) all rest ∙ write_fields-wire h _))

skip_options_lem :
    (h : TcpHeader) (payload : List ℕ)
    → 5 ≤ h.doff
    → skip_options h (from_buffer (replicate (4 * h.doff - 20) 0 ++ payload))
      ≡ (no_error, from_buffer payload)
unfolding skip_options remove_prefix check_size is_error
skip_options_lem h payload lo =
    let zeros = replicate {A = ℕ} (4 * h.doff - 20) 0 in
    let n : length zeros ≡ h.doff * 4 - 20 =
      omega (arith, length-replicate {A = ℕ} (4 * h.doff - 20) 0) in
    let long : ltb h.doff 5 ≡ false = ground (arith, lo) in
    let fits : ltb (length (zeros ++ payload)) (h.doff * 4 - 20) ≡ false =
      ground (arith, n, length-append zeros payload) in
    rw (long, fits) (ap (λ xs. (no_error, from_buffer xs)) (drop-append_self zeros payload _ n))

pub parse_header-head :
    (h : TcpHeader) (payload : List ℕ)
    → IsWord h
    → 5 ≤ h.doff
    → parse_header (from_buffer (head h ++ payload)) ≡ (no_error, h, from_buffer payload)
unfolding parse_header head
parse_header-head h payload w lo =
    ap (λ (r : NetParser × TcpHeader). after r.1 (skip_options r.1 r.0))
      (ap (λ xs. fields (from_buffer xs)) (wire-append h _ payload) ∙ fields_lem h _ w)
    ∙ ap (after h) (skip_options_lem h payload lo)
  where
    after : TcpHeader → ParseResult × NetParser → ParseResult × TcpHeader × NetParser
    after h r = (r.0, h, r.1)
