-- ===== src/Ethernet.antt =====
-- libsponge/tcp_helpers/ethernet_header.hh and .cc, ethernet_frame.hh and .cc. An `EthernetAddress`
-- is the list of its six bytes, a `BufferList` the list of the views of its buffers.
pub mod Laws
mod Examples
use csed.Base.{ℕ, zero, suc, List, [], ◌∷◌, ◌++◌, ltb, if◌then◌else◌, length}
use csed.Parser.{ParseResult, packet_too_short, NetParser, from_buffer, u8, u16, unparse_int}

abbrev pub EthernetAddress : Type 0
EthernetAddress = List ℕ

pub record EthernetHeader : Type 0 where
  pub dst : EthernetAddress
  pub src : EthernetAddress
  pub type : ℕ

abbrev pub header_length : ℕ
header_length = 14

-- `for (auto &byte : address) byte = p.u8()`, on the bytes left.
unfoldable pub read_address : ℕ → NetParser → NetParser × EthernetAddress
read_address zero p = (p, [])
read_address (suc n) p = let (p', b) = u8 p in let (q, bs) = read_address n p' in (q, b ∷ bs)

-- `for (auto &byte : address) NetUnparser::u8(ret, byte)`.
unfoldable pub write_address : List ℕ → EthernetAddress → List ℕ
write_address ret [] = ret
write_address ret (b ∷ bs) = write_address (unparse_int 1 ret b) bs

-- The result, the header it leaves and the parser.
unfoldable pub parse : EthernetHeader → NetParser → ParseResult × EthernetHeader × NetParser
unfolding read_address
parse h p =
    let (p1, dst) = read_address 6 p in
    let (p2, src) = read_address 6 p1 in
    let (p3, type) = u16 p2 in
    if ltb (length p.buffer) header_length
    then (packet_too_short, h, p)
    else (p3.error, record { dst = dst; src = src; type = type }, p3)

unfoldable pub serialize : EthernetHeader → List ℕ
unfolding write_address
serialize h = unparse_int 2 (write_address (write_address [] h.dst) h.src) h.type

pub record EthernetFrame : Type 0 where
  pub header : EthernetHeader
  pub payload : List (List ℕ)

-- `EthernetFrame::parse`: what it returns is the error of the parser.
unfoldable pub parse_frame : EthernetFrame → List ℕ → ParseResult × EthernetFrame
unfolding parse
parse_frame f buffer =
    let (result, h, p) = parse f.header (from_buffer buffer) in
    (p.error, record { header = h; payload = p.buffer ∷ [] })

unfoldable pub serialize_frame : EthernetFrame → List (List ℕ)
unfolding serialize
serialize_frame f = serialize f.header ∷ f.payload
