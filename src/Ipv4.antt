-- ===== src/Ipv4.antt =====
-- `IPv4Header` of libsponge/tcp_helpers/ipv4_header.hh and .cc.
pub mod Fields
pub mod Checksums
use csed.Base.{
  ℕ, ◌+◌, ◌-◌, ◌*◌, ◌/◌, ◌%◌, Bool, true, false, not, Option, none, some, List, [], ◌++◌, ltb, ◌==◌,
  if◌then◌else◌, length, take, replicate, u16_mod, u32_mod,
}
use csed.Checksum
use csed.Parser.{
  ParseResult, no_error, bad_checksum, packet_too_short, wrong_ip_version, header_too_short,
  truncated_packet, NetParser, Parse, ◌>>=◌, yields, u8, u16, u32, remove_prefix, is_error,
  unparse_int, resize,
}

pub record Ipv4Header : Type 0 where
  pub ver : ℕ
  pub hlen : ℕ
  pub tos : ℕ
  pub len : ℕ
  pub id : ℕ
  pub df : Bool
  pub mf : Bool
  pub offset : ℕ
  pub ttl : ℕ
  pub proto : ℕ
  pub cksum : ℕ
  pub src : ℕ
  pub dst : ℕ

-- `IPv4Header::LENGTH`, in bytes.
abbrev pub ipv4_length : ℕ
ipv4_length = 20

abbrev pub default_ttl : ℕ
default_ttl = 128

abbrev pub proto_tcp : ℕ
proto_tcp = 6

unfoldable pub default_header : Ipv4Header
default_header = record {
  ver = 4;
  hlen = ipv4_length / 4;
  tos = 0;
  len = 0;
  id = 0;
  df = true;
  mf = false;
  offset = 0;
  ttl = default_ttl;
  proto = proto_tcp;
  cksum = 0;
  src = 0;
  dst = 0;
}

-- The reads of `parse`.
unfoldable pub fields : Parse Ipv4Header
fields = do
  first_byte ← u8
  tos ← u8
  len ← u16
  id ← u16
  fo_val ← u16
  ttl ← u8
  proto ← u8
  cksum ← u16
  src ← u32
  dst ← u32
  yields (record {
    ver = first_byte / 16;
    hlen = first_byte % 16;
    tos = tos;
    len = len;
    id = id;
    df = fo_val / 0x4000 % 2 == 1;
    mf = fo_val / 0x2000 % 2 == 1;
    offset = fo_val % 0x2000;
    ttl = ttl;
    proto = proto;
    cksum = cksum;
    src = src;
    dst = dst;
  })

-- The sum of the bytes of the header, as they came.
unfoldable pub check_sum : Ipv4Header → List ℕ → ParseResult
check_sum h original =
    if Checksum.value (Checksum.add (Checksum.new 0) (take (4 * h.hlen) original)) == 0
    then no_error
    else bad_checksum

-- The tests after the reads, in their order, on the bytes that came: the result, and the parser.
unfoldable pub checks : Ipv4Header → List ℕ → NetParser → ParseResult × NetParser
unfolding check_sum is_error remove_prefix
checks h original p =
    let data_size = length original in
    let p' = remove_prefix p (h.hlen * 4 - ipv4_length) in
    if ltb data_size (4 * h.hlen)
    then (packet_too_short, p)
    else (if not (h.ver == 4)
        then (wrong_ip_version, p)
        else (if ltb h.hlen 5
            then (header_too_short, p)
            else (if not (data_size == h.len)
                then (truncated_packet, p)
                else (if is_error p'.error then (p'.error, p') else (check_sum h original, p')))))

-- The result, the header that is left and the parser.
unfoldable pub parse : Ipv4Header → NetParser → ParseResult × Ipv4Header × NetParser
unfolding fields checks
parse h p =
    let (p', h') = fields p in
    let (result, p'') = checks h' p.buffer p' in
    if ltb (length p.buffer) ipv4_length then (packet_too_short, h, p) else (result, h', p'')

-- `(ver << 4) | (hlen & 0xf)`, a byte.
unfoldable pub first_byte : Ipv4Header → ℕ
first_byte h = (h.ver * 16 + h.hlen % 16) % 256

-- `(df ? 0x4000 : 0) | (mf ? 0x2000 : 0) | (offset & 0x1fff)`.
unfoldable pub fo_val : Ipv4Header → ℕ
fo_val h = (if h.df then 0x4000 else 0) + (if h.mf then 0x2000 else 0) + h.offset % 0x2000

-- The writes of `serialize`, up to `resize`.
unfoldable pub write_fields : Ipv4Header → List ℕ
unfolding first_byte fo_val
write_fields h =
    let ret = unparse_int 1 (unparse_int 1 [] (first_byte h)) h.tos in
    let ret = unparse_int 2 (unparse_int 2 ret h.len) h.id in
    let ret = unparse_int 2 ret (fo_val h) in
    let ret = unparse_int 1 (unparse_int 1 ret h.ttl) h.proto in
    let ret = unparse_int 2 ret h.cksum in unparse_int 4 (unparse_int 4 ret h.src) h.dst

-- `none` stands for the exceptions.
unfoldable pub serialize : Ipv4Header → Option (List ℕ)
unfolding write_fields resize
serialize h =
    if not (h.ver == 4)
    then none
    else (if ltb (4 * h.hlen) ipv4_length
        then none
        else some (resize (write_fields h) (4 * h.hlen)))

-- A `uint16_t`.
unfoldable pub payload_length : Ipv4Header → ℕ
payload_length h = (h.len + u16_mod - 4 * h.hlen) % u16_mod

unfoldable pub pseudo_cksum : Ipv4Header → ℕ
unfolding payload_length
pseudo_cksum h =
    let src = h.src / u16_mod + h.src % u16_mod in
    let dst = h.dst / u16_mod + h.dst % u16_mod in
    (src + dst + h.proto + payload_length h) % u32_mod
