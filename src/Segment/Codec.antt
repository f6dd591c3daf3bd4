-- ===== src/Segment/Codec.antt =====
-- libsponge/tcp_helpers/tcp_header.cc and tcp_segment.cc: `parse` and `serialize`.
use csed.Base.{
  ℕ, ◌+◌, ◌-◌, ◌*◌, ◌/◌, ◌%◌, not, Option, none, some, List, [], ◌∷◌, ltb, ◌==◌, if◌then◌else◌,
}
use csed.Checksum
use csed.Parser.{
  ParseResult, no_error, bad_checksum, header_too_short, NetParser, Parse, ◌>>=◌, yields,
  from_buffer, u8, u16, u32, remove_prefix, is_error, unparse_int, resize, append_to,
}
use csed.Segment.{TcpHeader, TcpSegment}

-- `TCPHeader::LENGTH`, in bytes.
abbrev pub tcp_length : ℕ
tcp_length = 20

-- The reads of `TCPHeader::parse`.
unfoldable pub fields : Parse TcpHeader
fields = do
  sport ← u16
  dport ← u16
  seqno ← u32
  ackno ← u32
  offset ← u8
  fl_b ← u8
  win ← u16
  cksum ← u16
  uptr ← u16
  yields (record {
    sport = sport;
    dport = dport;
    seqno = seqno;
    ackno = ackno;
    doff = offset / 16;
    urg = fl_b / 0x20 % 2 == 1;
    ack = fl_b / 0x10 % 2 == 1;
    psh = fl_b / 0x8 % 2 == 1;
    rst = fl_b / 0x4 % 2 == 1;
    syn = fl_b / 0x2 % 2 == 1;
    fin = fl_b % 2 == 1;
    win = win;
    cksum = cksum;
    uptr = uptr;
  })

-- The test of `doff`, and the options: the result and the parser.
unfoldable pub skip_options : TcpHeader → NetParser → ParseResult × NetParser
unfolding remove_prefix is_error
skip_options h p =
    let p' = remove_prefix p (h.doff * 4 - tcp_length) in
    if ltb h.doff 5
    then (header_too_short, p)
    else (if is_error p'.error then (p'.error, p') else (no_error, p'))

-- The result, the header and the parser.
unfoldable pub parse_header : NetParser → ParseResult × TcpHeader × NetParser
unfolding fields skip_options
parse_header p = let (p', h) = fields p in let (result, p'') = skip_options h p' in (result, h, p'')

-- The flags, as the byte that is written.
unfoldable pub flag_byte : TcpHeader → ℕ
flag_byte h =
    (if h.urg then 0x20 else 0)
    + (if h.ack then 0x10 else 0)
    + (if h.psh then 0x8 else 0)
    + (if h.rst then 0x4 else 0)
    + (if h.syn then 0x2 else 0)
    + (if h.fin then 0x1 else 0)

-- The writes of `TCPHeader::serialize`, up to `resize`; `doff << 4` is cut to a byte.
unfoldable pub write_fields : TcpHeader → List ℕ
unfolding flag_byte
write_fields h =
    let ret = unparse_int 2 (unparse_int 2 [] h.sport) h.dport in
    let ret = unparse_int 4 (unparse_int 4 ret h.seqno) h.ackno in
    let ret = unparse_int 1 (unparse_int 1 ret (h.doff * 16 % 256)) (flag_byte h) in
    let ret = unparse_int 2 (unparse_int 2 ret h.win) h.cksum in unparse_int 2 ret h.uptr

-- `none` stands for the exception.
unfoldable pub serialize_header : TcpHeader → Option (List ℕ)
unfolding write_fields
serialize_header h = if ltb h.doff 5 then none else some (resize (write_fields h) (4 * h.doff))

-- `TCPSegment::parse`. What the header's `parse` returns is dropped.
unfoldable pub parse : TcpSegment → List ℕ → ℕ → ParseResult × TcpSegment
unfolding parse_header
parse seg buffer datagram_layer_checksum =
    let check = Checksum.add (Checksum.new datagram_layer_checksum) buffer in
    let (result, h, p) = parse_header (from_buffer buffer) in
    if not (Checksum.value check == 0)
    then (bad_checksum, seg)
    else (p.error, record { header = h; payload = p.buffer })

-- `TCPSegment::serialize` from the bytes of the header without a checksum on.
unfoldable pub serialize_with : TcpSegment → ℕ → Option (List ℕ) → Option (List (List ℕ))
unfolding serialize_header append_to
serialize_with seg datagram_layer_checksum none = none
serialize_with seg datagram_layer_checksum (some bytes) =
    let check =
      Checksum.add (Checksum.add (Checksum.new datagram_layer_checksum) bytes) seg.payload in
    append_to (serialize_header (record (seg.header) { cksum = Checksum.value check }))
      (seg.payload ∷ [])

-- The views of the buffers of the `BufferList`.
unfoldable pub serialize : TcpSegment → ℕ → Option (List (List ℕ))
unfolding serialize_header serialize_with
serialize seg datagram_layer_checksum =
    serialize_with seg datagram_layer_checksum
      (serialize_header (record (seg.header) { cksum = 0 }))
